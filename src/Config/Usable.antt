-- ===== src/Config/Usable.antt =====
-- What holds of the settings that internal/config/config.go accepts.
use go_spark.Base.{
  ℕ, ◌≡◌, ◌⊎◌, refl, subst, ◌||◌, ◌&&◌, not, Text, codes, text_eq, Bool, true, false, Bool-cases,
  inl, inr, Option, none, some, [], ◌∷◌, is_empty, trim_space, arith,
}
use go_spark.Config.{
  ◌>>=◌, Surroundings, Config, is_process, is_provider, is_format, is_positive, is_paired, only_if,
}
use go_spark.Config.Values.{
  env_process, process_from_override_or_env, env_log_format, env_email_provider,
  env_duration_or_default,
}
use go_spark.Config.Settings.{base_config, smtp_config, from_env_with_process}

bind_some :
    {A B : Type 0} (o : Option A) (f : A → Option B) (b : B)
    → (o >>= f) ≡ some b
    → (a : A) × (o ≡ some a) × (f a ≡ some b)
unfolding ◌>>=◌
bind_some none f b h = absurd (cc h)
bind_some (some a) f b h = (a, refl, h)

some_inj : {A : Type 0} (a b : A) → some a ≡ some b → a ≡ b
some_inj a b h = cc h

only_if-some : {A : Type 0} (p : A → Bool) (a b : A) → only_if p a ≡ some b → (p b ≡ true) × (a ≡ b)
only_if-some p a b h = elim (Bool-cases (p a)) [
  | inl e ↦ let same : a ≡ b = ground (arith, e, h) in (subst (λ x. p x ≡ true) same e, same)
  | inr e ↦ absurd (cc (rw e at h))
]

-- What holds of the settings without those of SMTP.
abbrev pub Settled : Config → Type 0
Settled c =
    (is_process c.process ≡ true)
    × (is_format c.log_format ≡ true)
    × (is_provider c.email_provider ≡ true)
    × (is_positive c.cleanup_interval ≡ true)
    × (is_positive c.cleanup_token_retention ≡ true)
    × (is_positive c.cleanup_sent_email_retention ≡ true)
    × (is_positive c.cleanup_failed_email_retention ≡ true)

-- The SMTP settings, where mails are sent by SMTP: a host, a port, and both credentials or none.
abbrev pub Sendable : Config → Type 0
Sendable c =
    (is_empty c.smtp_host ≡ false)
    × (is_positive c.smtp_port ≡ true)
    × (is_empty c.smtp_username ≡ is_empty c.smtp_password)

module _ (e : Surroundings) where
  process_known :
      (override p : Text) → process_from_override_or_env e override ≡ some p → is_process p ≡ true
  unfolding process_from_override_or_env env_process
  process_known override p h =
      let process = e.platform.to_lower (trim_space override) in
      elim (Bool-cases (is_empty process)) [
        | inl b ↦ (only_if-some is_process _ p (rw b at h)).0
        | inr b ↦ (only_if-some is_process _ p (rw b at h)).0
      ]

  format_known :
      (key fallback f : Text) → env_log_format e key fallback ≡ some f → is_format f ≡ true
  unfolding env_log_format
  format_known key fallback f h = (only_if-some is_format _ f h).0

  provider_known :
      (key fallback p : Text) → env_email_provider e key fallback ≡ some p → is_provider p ≡ true
  unfolding env_email_provider
  provider_known key fallback p h = (only_if-some is_provider _ p h).0

  duration_positive :
      (key : Text) (fallback n : ℕ)
      → is_positive fallback ≡ true
      → env_duration_or_default e key fallback ≡ some n
      → is_positive n ≡ true
  unfolding env_duration_or_default
  duration_positive key fallback n pos h =
      let raw = trim_space (e.getenv key) in
      elim (Bool-cases (is_empty raw)) [
        | inl b ↦
            let same : fallback ≡ n = ground (arith, b, h) in
            subst (λ x. is_positive x ≡ true) same pos
        | inr b ↦
            let (d, _, checked) =
              bind_some (e.parse_duration raw) (only_if is_positive) n (rw b at h) in
            (only_if-some is_positive d n checked).0
      ]

  base-Settled : (override : Text) (c : Config) → base_config e override ≡ some c → Settled c
  unfolding base_config
  base-Settled override c h =
      let (p, hp, h) = bind_some _ _ c h in
      let (f, hf, h) = bind_some _ _ c h in
      let (_, _, h) = bind_some _ _ c h in
      let (_, _, h) = bind_some _ _ c h in
      let (_, _, h) = bind_some _ _ c h in
      let (_, _, h) = bind_some _ _ c h in
      let (_, _, h) = bind_some _ _ c h in
      let (m, hm, h) = bind_some _ _ c h in
      let (_, _, h) = bind_some _ _ c h in
      let (i, hi, h) = bind_some _ _ c h in
      let (k, hk, h) = bind_some _ _ c h in
      let (l, hl, h) = bind_some _ _ c h in
      let (o, ho, h) = bind_some _ _ c h in
      let (_, _, h) = bind_some _ _ c h in
      let (_, _, h) = bind_some _ _ c h in
      subst Settled (some_inj _ _ h) (
        process_known override p hp,
        format_known _ _ f hf,
        provider_known _ _ m hm,
        duration_positive _ _ i refl hi,
        duration_positive _ _ k refl hk,
        duration_positive _ _ l refl hl,
        duration_positive _ _ o refl ho,
      )

  both_or_none :
      (u p : Text)
      → ((is_empty u && is_empty p) || (not (is_empty u) && not (is_empty p))) ≡ true
      → is_empty u ≡ is_empty p
  both_or_none [] [] h = refl
  both_or_none [] (c ∷ p) h = absurd (cc h)
  both_or_none (c ∷ u) [] h = absurd (cc h)
  both_or_none (c ∷ u) (d ∷ p) h = refl

  smtp-Sendable : (b c : Config) → smtp_config e b ≡ some c → Settled b → Settled c × Sendable c
  unfolding smtp_config
  smtp-Sendable b c h settled =
      let (host, hh, h) = bind_some _ _ c h in
      let (port, hp, h) = bind_some _ _ c h in
      let (_, _, h) = bind_some _ _ c h in
      let (both, hb, h) = bind_some _ _ c h in
      let (_, _, positive) = bind_some _ _ port hp in
      let (full, _) = only_if-some (λ t. not (is_empty t)) _ host hh in
      let (paired, _) = only_if-some is_paired _ both hb in
      subst (λ x. Settled x × Sendable x) (some_inj _ _ h)
        (
          settled,
          (
            ground (arith, full),
            (only_if-some is_positive _ port positive).0,
            both_or_none both.0 both.1 paired,
          ),
        )

  -- Settings that load name a known process, log format and mail provider and have positive times
  -- for the cleanup; where mails are sent by SMTP they have a host, a positive port, and either both
  -- credentials or none.
  pub from_env-Settled :
      (override : Text) (c : Config)
      → from_env_with_process e override ≡ some c
      → Settled c × ((text_eq c.email_provider (codes "smtp") ≡ false) ⊎ Sendable c)
  unfolding from_env_with_process
  from_env-Settled override c h =
      let (b, hb, h) = bind_some _ _ c h in
      let settled = base-Settled override b hb in
      elim (Bool-cases (text_eq b.email_provider (codes "smtp"))) [
        | inl smtp ↦ let (s, t) = smtp-Sendable b c (rw smtp at h) settled in (s, inr t)
        | inr other ↦
            let same : b ≡ c = some_inj _ _ (rw other at h) in
            (
              subst Settled same settled,
              inl (subst (λ x. text_eq x.email_provider (codes "smtp") ≡ false) same other),
            )
      ]
