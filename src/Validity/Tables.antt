-- ===== src/Validity/Tables.antt =====
-- A well-formed database with one table replaced.
use go_spark.Base.{List, Distinct}
use go_spark.Schema.{
  User, Session, Token, EmailChangeToken, EmailOutbox, UserTotp, TotpBackupCode, Project, Db,
}
use go_spark.Validity.{Owned, UsersValid, KeysValid, Owners, Valid}

-- A database is well formed with another table in place of one, if the new table is.
module _ (d : Db) (v : Valid d) where
  pub with_users : (us : List User) → UsersValid us → Owners us d → Valid (record d { users = us })
  with_users us k o = record {
    users = k;
    sessions = v.sessions;
    verifications = v.verifications;
    resets = v.resets;
    changes = v.changes;
    totps = v.totps;
    codes = v.codes;
    outbox = v.outbox;
    owners = record {
      sessions = o.sessions;
      verifications = o.verifications;
      resets = o.resets;
      changes = o.changes;
      totps = o.totps;
      codes = o.codes;
      credentials = o.credentials;
      projects = o.projects;
    };
  }

  pub with_sessions :
      (rows : List Session)
      → KeysValid (λ (r : Session). r.id) (λ r. r.token_hash) rows
      → Owned (λ (r : Session). r.user_id) d.users rows
      → Valid (record d { sessions = rows })
  with_sessions rows k o = record {
    users = v.users;
    sessions = k;
    verifications = v.verifications;
    resets = v.resets;
    changes = v.changes;
    totps = v.totps;
    codes = v.codes;
    outbox = v.outbox;
    owners = record {
      sessions = o;
      verifications = v.owners.verifications;
      resets = v.owners.resets;
      changes = v.owners.changes;
      totps = v.owners.totps;
      codes = v.owners.codes;
      credentials = v.owners.credentials;
      projects = v.owners.projects;
    };
  }

  pub with_verifications :
      (rows : List Token)
      → KeysValid (λ (r : Token). r.id) (λ r. r.token_hash) rows
      → Owned (λ (r : Token). r.user_id) d.users rows
      → Valid (record d { email_verification_tokens = rows })
  with_verifications rows k o = record {
    users = v.users;
    sessions = v.sessions;
    verifications = k;
    resets = v.resets;
    changes = v.changes;
    totps = v.totps;
    codes = v.codes;
    outbox = v.outbox;
    owners = record {
      sessions = v.owners.sessions;
      verifications = o;
      resets = v.owners.resets;
      changes = v.owners.changes;
      totps = v.owners.totps;
      codes = v.owners.codes;
      credentials = v.owners.credentials;
      projects = v.owners.projects;
    };
  }

  pub with_resets :
      (rows : List Token)
      → KeysValid (λ (r : Token). r.id) (λ r. r.token_hash) rows
      → Owned (λ (r : Token). r.user_id) d.users rows
      → Valid (record d { password_reset_tokens = rows })
  with_resets rows k o = record {
    users = v.users;
    sessions = v.sessions;
    verifications = v.verifications;
    resets = k;
    changes = v.changes;
    totps = v.totps;
    codes = v.codes;
    outbox = v.outbox;
    owners = record {
      sessions = v.owners.sessions;
      verifications = v.owners.verifications;
      resets = o;
      changes = v.owners.changes;
      totps = v.owners.totps;
      codes = v.owners.codes;
      credentials = v.owners.credentials;
      projects = v.owners.projects;
    };
  }

  pub with_changes :
      (rows : List EmailChangeToken)
      → KeysValid (λ (r : EmailChangeToken). r.id) (λ r. r.token_hash) rows
      → Owned (λ (r : EmailChangeToken). r.user_id) d.users rows
      → Valid (record d { email_change_tokens = rows })
  with_changes rows k o = record {
    users = v.users;
    sessions = v.sessions;
    verifications = v.verifications;
    resets = v.resets;
    changes = k;
    totps = v.totps;
    codes = v.codes;
    outbox = v.outbox;
    owners = record {
      sessions = v.owners.sessions;
      verifications = v.owners.verifications;
      resets = v.owners.resets;
      changes = o;
      totps = v.owners.totps;
      codes = v.owners.codes;
      credentials = v.owners.credentials;
      projects = v.owners.projects;
    };
  }

  pub with_totps :
      (rows : List UserTotp)
      → Distinct (λ (r : UserTotp). r.user_id) rows
      → Owned (λ (r : UserTotp). r.user_id) d.users rows
      → Valid (record d { user_totp = rows })
  with_totps rows k o = record {
    users = v.users;
    sessions = v.sessions;
    verifications = v.verifications;
    resets = v.resets;
    changes = v.changes;
    totps = k;
    codes = v.codes;
    outbox = v.outbox;
    owners = record {
      sessions = v.owners.sessions;
      verifications = v.owners.verifications;
      resets = v.owners.resets;
      changes = v.owners.changes;
      totps = o;
      codes = v.owners.codes;
      credentials = v.owners.credentials;
      projects = v.owners.projects;
    };
  }

  pub with_codes :
      (rows : List TotpBackupCode)
      → KeysValid (λ (r : TotpBackupCode). r.id) (λ r. r.code_hash) rows
      → Owned (λ (r : TotpBackupCode). r.user_id) d.users rows
      → Valid (record d { totp_backup_codes = rows })
  with_codes rows k o = record {
    users = v.users;
    sessions = v.sessions;
    verifications = v.verifications;
    resets = v.resets;
    changes = v.changes;
    totps = v.totps;
    codes = k;
    outbox = v.outbox;
    owners = record {
      sessions = v.owners.sessions;
      verifications = v.owners.verifications;
      resets = v.owners.resets;
      changes = v.owners.changes;
      totps = v.owners.totps;
      codes = o;
      credentials = v.owners.credentials;
      projects = v.owners.projects;
    };
  }

  pub with_outbox :
      (rows : List EmailOutbox)
      → Distinct (λ (r : EmailOutbox). r.id) rows
      → Valid (record d { email_outbox = rows })
  with_outbox rows k = record {
    users = v.users;
    sessions = v.sessions;
    verifications = v.verifications;
    resets = v.resets;
    changes = v.changes;
    totps = v.totps;
    codes = v.codes;
    outbox = k;
    owners = record {
      sessions = v.owners.sessions;
      verifications = v.owners.verifications;
      resets = v.owners.resets;
      changes = v.owners.changes;
      totps = v.owners.totps;
      codes = v.owners.codes;
      credentials = v.owners.credentials;
      projects = v.owners.projects;
    };
  }

  pub with_projects :
      (rows : List Project)
      → Owned (λ (r : Project). r.user_id) d.users rows
      → Valid (record d { projects = rows })
  with_projects rows o = record {
    users = v.users;
    sessions = v.sessions;
    verifications = v.verifications;
    resets = v.resets;
    changes = v.changes;
    totps = v.totps;
    codes = v.codes;
    outbox = v.outbox;
    owners = record {
      sessions = v.owners.sessions;
      verifications = v.owners.verifications;
      resets = v.owners.resets;
      changes = v.owners.changes;
      totps = v.owners.totps;
      codes = v.owners.codes;
      credentials = v.owners.credentials;
      projects = o;
    };
  }
