-- ===== src/Email/Processor/Invariant.antt =====
-- A cycle of the worker (internal/email/processor.go) and the well-formed databases.
use go_spark.Base.{List, [], ◌∷◌}
use go_spark.Effect.{Env}
use go_spark.Effect.Invariants.{Keeps, keeps_rules, Keeps-bind, Keeps-pure}
use go_spark.Validity.{Valid}
use go_spark.Validity.Rules.{valid_rules}
use go_spark.Email.OutboxStore.{
  OutboxEmail, claim_pending, mark_sent, mark_failed, mark_failed_permanently,
}
use go_spark.Email.Processor.{Processor, process_pending, deliver, deliver_all, settle, send}
use go_spark.Base.{Option, none, some, Text}
use go_spark.Email.Messages.{Message}

module _ (env : Env) (p : Processor) where
  send-Keeps : (m : Message) → Keeps Valid (send env p m)
  unfolding send
  send-Keeps m = record { at = λ w v. v }

  settle-Keeps : (m : OutboxEmail) (failure : Option Text) → Keeps Valid (settle env p m failure)
  unfolding settle mark_sent mark_failed mark_failed_permanently
  settle-Keeps m none = search (keeps_rules, valid_rules) depth 20
  settle-Keeps m (some e) = search (keeps_rules, valid_rules) depth 20

  deliver-Keeps : (m : OutboxEmail) → Keeps Valid (deliver env p m)
  unfolding deliver
  deliver-Keeps m = search (keeps_rules, valid_rules, send-Keeps, settle-Keeps) depth 20

  deliver_all-Keeps : (ms : List OutboxEmail) → Keeps Valid (deliver_all env p ms)
  unfolding deliver_all
  deliver_all-Keeps [] = Keeps-pure []
  deliver_all-Keeps (m ∷ ms) = Keeps-bind (deliver env p m) _ (deliver-Keeps m) λ out.
      Keeps-bind (deliver_all env p ms) _ (deliver_all-Keeps ms) λ outs. Keeps-pure (out ∷ outs)

  pub process_pending-Keeps : Keeps Valid (process_pending env p)
  unfolding process_pending claim_pending
  process_pending-Keeps = search (keeps_rules, valid_rules, deliver_all-Keeps) depth 20
