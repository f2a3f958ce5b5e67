-- ===== src/Session/Jobs/Says.antt =====
-- What the host is told: the messages that each operation of the job manager sends.
use rust_plugin_sdk.Prelude.{
  ℕ, ◌≡◌, refl, sym, ap, ◌∙◌, inl, inr, Option, none, some, List, [], ◌∷◌, ◌++◌, arith,
  append_assoc, append-nil, string_eq,
}
use rust_plugin_sdk.Protocol.{TraceContext, Payload, JobUpdate}
use rust_plugin_sdk.Error.{Result, ok, err, panic}
use rust_plugin_sdk.Exec.{Exec, ◌>>=◌, proceed, pure, ◌>>◌}
use rust_plugin_sdk.Sender.Effect.{Message, message, transcript, send-Delivers}
use rust_plugin_sdk.Session.Jobs.Errors.{terminal_update}
use rust_plugin_sdk.Session.Jobs.Defs.{
  PendingCancellation, FinishedAction, JobManager, send_out, send_all,
  send_cancellation_acknowledgement,
}
use rust_plugin_sdk.Session.Jobs.Ops.{settle_output}

abbrev pub said : JobManager → List Message
said j = transcript j.host.sender

abbrev pub ack_message : PendingCancellation → Message
ack_message c = message (some c.reply_to) c.trace (Payload.cancel_job_acknowledged (some c.job_id))

abbrev pub ack_messages : List PendingCancellation → List Message
ack_messages [] = []
ack_messages (c ∷ cs) = ack_message c ∷ ack_messages cs

-- An action that, if it returns, has sent exactly these messages, in this order.
module _ {A : Type 0} where
  pub record Sends (ms : List Message) (m : Exec JobManager A) : Type 0 where
    pub at : (j : JobManager) (a : A) → (m j).0 ≡ ok a → said (m j).1 ≡ said j ++ ms

  pub Sends-pure : (a : A) → Sends [] (pure a)
  Sends-pure a = record { at = λ j b e. sym (append-nil (said j)) }

module _ {A B : Type 0} where
  Sends-proceed :
      (ms ns : List Message) (r : Result A) (f : A → Exec JobManager B) (s j : JobManager) (b : B)
      → ((a : A) → r ≡ ok a → said j ≡ said s ++ ms)
      → ((a : A) → Sends ns (f a))
      → (proceed r f j).0 ≡ ok b
      → said (proceed r f j).1 ≡ said s ++ (ms ++ ns)
  Sends-proceed ms ns (ok a) f s j b h k e =
      (k a).at j b e ∙ (ap (λ l. l ++ ns) (h a refl) ∙ append_assoc (said s) ms ns)
  Sends-proceed ms ns (err x) f s j b h k e = ground arith
  Sends-proceed ms ns (panic x) f s j b h k e = ground arith

  pub Sends-bind :
      (ms ns : List Message) (m : Exec JobManager A) (f : A → Exec JobManager B)
      → Sends ms m
      → ((a : A) → Sends ns (f a))
      → Sends (ms ++ ns) (m >>= f)
  Sends-bind ms ns m f a b = record {
    at = λ j x e. Sends-proceed ms ns (m j).0 f j (m j).1 x (λ y. a.at j y) b e;
  }

pub Sends-send_out :
    (reply_to : Option ℕ) (trace : TraceContext) (payload : Payload)
    → Sends (message reply_to trace payload ∷ []) (send_out reply_to trace payload)
Sends-send_out reply_to trace payload = record {
  at = λ j id e. elim (send-Delivers reply_to trace payload j.host.sender) [
    | inl (_, same) ↦ same
    | inr (x, failed, _) ↦ ground (arith, e, failed)
  ];
}

pub Sends-ack :
    (c : PendingCancellation) → Sends (ack_message c ∷ []) (send_cancellation_acknowledgement c)
unfolding send_cancellation_acknowledgement
Sends-ack c = Sends-bind (ack_message c ∷ []) [] _ _ (Sends-send_out _ _ _) (λ _. Sends-pure tt)

pub Sends-send_all : (cs : List PendingCancellation) → Sends (ack_messages cs) (send_all cs)
unfolding send_all
Sends-send_all [] = Sends-pure tt
Sends-send_all (c ∷ cs) =
    Sends-bind (ack_message c ∷ []) (ack_messages cs) _ _ (Sends-ack c) (λ _. Sends-send_all cs)

-- The one closing of a job: its terminal update, or an acknowledgement of each cancellation.
abbrev pub update_messages : TraceContext → Result JobUpdate → List Message
update_messages trace (ok update) = message none trace (Payload.job_update update) ∷ []
update_messages trace (err e) = []
update_messages trace (panic m) = []

abbrev pub closing : FinishedAction → TraceContext → List PendingCancellation → List Message
closing f trace [] = update_messages trace (terminal_update f.job_id f.output)
closing f trace (c ∷ cs) = ack_messages (c ∷ cs)

Sends-update :
    (trace : TraceContext) (r : Result JobUpdate)
    → Sends
        (update_messages trace r)
        (λ j. proceed r (λ u. send_out none trace (Payload.job_update u) >> pure tt) j)
Sends-update trace (ok u) =
    Sends-bind (message none trace (Payload.job_update u) ∷ []) [] _ _ (Sends-send_out _ _ _)
      (λ _. Sends-pure tt)
Sends-update trace (err e) = record { at = λ j a h. ground arith }
Sends-update trace (panic m) = record { at = λ j a h. ground arith }

pub Sends-settle_output :
    (f : FinishedAction) (trace : TraceContext) (cs : List PendingCancellation)
    → Sends (closing f trace cs) (settle_output f trace cs)
Sends-settle_output f trace [] = Sends-update trace (terminal_update f.job_id f.output)
Sends-settle_output f trace (c ∷ cs) = Sends-send_all (c ∷ cs)
