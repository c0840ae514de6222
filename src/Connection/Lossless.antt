-- ===== src/Connection/Lossless.antt =====
-- On a stream that stays open and writes without an error nothing is lost and the queue never
-- stalls (src/connection/base/connectionBase.cpp and
-- src/websocketConnection/base/websocketConnectionBase.hpp).
use ros2_connect.Prelude.{
  ℕ, ◌≡◌, refl, sym, ◌∙◌, true, false, Option, none, some, List, [], ◌∷◌, ◌++◌,
}
use mathlib.Core.Path.{subst}
use mathlib.Core.List.{append-nil, append_assoc}
use ros2_connect.Connection.Sending.{
  Sending, Event, send, complete, opened, closed, new, queue_message, on_write, step, run,
}
use ros2_connect.Connection.Order.{sent, sent-cons, not_one, not_zero, state}

-- Sends and completions without an error.
abbrev pub IsSmooth : List Event → Type 0
IsSmooth [] = Unit
IsSmooth (send bytes ∷ es) = IsSmooth es
IsSmooth (complete true ∷ es) = ⊥
IsSmooth (complete false ∷ es) = IsSmooth es
IsSmooth (opened ∷ es) = ⊥
IsSmooth (closed ∷ es) = ⊥

-- The front is being written whenever something waits.
abbrev pub IsBusy : List (List ℕ) → List (List ℕ) → Type 0
IsBusy w [] = w ≡ []
IsBusy w (x ∷ q) = w ≡ x ∷ []

abbrev IsExact : List (List ℕ) → Option Sending → Type 0
IsExact all none = ⊥
IsExact all (some r) =
    (r.is_open ≡ true) × IsBusy r.writes r.sending_queue × (r.written ++ r.sending_queue ≡ all)

send-IsExact :
    (bytes : List ℕ) (q w d : List (List ℕ)) (n : ℕ)
    → IsBusy w q
    → IsExact ((d ++ q) ++ bytes ∷ []) (step (send bytes) (state q true w d n))
unfolding step
send-IsExact bytes [] w d n h =
    unfold queue_message in (refl, rw h refl, sym (append_assoc d [] (bytes ∷ [])))
send-IsExact bytes (x ∷ []) w d n h =
    unfold queue_message in (refl, h, sym (append_assoc d (x ∷ []) (bytes ∷ [])))
send-IsExact bytes (x ∷ y ∷ q) w d n h =
    unfold queue_message in
    rw (not_one (q ++ bytes ∷ [])) (refl, h, sym (append_assoc d (x ∷ y ∷ q) (bytes ∷ [])))

complete-IsExact :
    (q w d : List (List ℕ)) (n : ℕ)
    → IsBusy w q
    → IsExact (d ++ q) (step (complete false) (state q true w d n))
unfolding step
complete-IsExact [] w d n h = rw h (refl, h, refl)
complete-IsExact (x ∷ []) w d n h = unfold on_write in rw h (refl, refl, append_assoc d (x ∷ []) [])
complete-IsExact (x ∷ y ∷ q) w d n h =
    unfold on_write in rw (h, not_zero q) (refl, refl, append_assoc d (x ∷ []) (y ∷ q))

IsExact-cases :
    (all : List (List ℕ)) (o : Option Sending)
    → IsExact all o
    → (r : Sending) × (o ≡ some r)
      × (r.is_open ≡ true)
      × IsBusy r.writes r.sending_queue
      × (r.written ++ r.sending_queue ≡ all)
IsExact-cases all none h = absurd h
IsExact-cases all (some r) h = (r, refl, h.0, h.1, h.2)

step-IsExact :
    (e : Event) (es : List Event) (s : Sending)
    → IsSmooth (e ∷ es)
    → s.is_open ≡ true
    → IsBusy s.writes s.sending_queue
    → IsExact ((s.written ++ s.sending_queue) ++ sent (e ∷ [])) (step e s) × IsSmooth es
unfolding sent
step-IsExact (send bytes) es s m o h = (
  subst
      (λ b.
        IsExact ((s.written ++ s.sending_queue) ++ bytes ∷ [])
          (step (send bytes) (state s.sending_queue b s.writes s.written s.stop_requests)))
      (sym o) (send-IsExact bytes s.sending_queue s.writes s.written s.stop_requests h),
  m,
)
step-IsExact (complete true) es s m o h = absurd m
step-IsExact (complete false) es s m o h = (
  rw (append-nil (s.written ++ s.sending_queue)) (
      subst
        (λ b.
          IsExact (s.written ++ s.sending_queue)
            (step (complete false) (state s.sending_queue b s.writes s.written s.stop_requests)))
        (sym o) (complete-IsExact s.sending_queue s.writes s.written s.stop_requests h)),
  m,
)
step-IsExact opened es s m o h = absurd m
step-IsExact closed es s m o h = absurd m

run-exact :
    (es : List Event) (s : Sending)
    → IsSmooth es
    → s.is_open ≡ true
    → IsBusy s.writes s.sending_queue
    → (r : Sending) × (run es s ≡ some r)
      × IsBusy r.writes r.sending_queue
      × (r.written ++ r.sending_queue ≡ (s.written ++ s.sending_queue) ++ sent es)
unfolding run
run-exact [] s m o h = (s, refl, h, unfold sent in sym (append-nil (s.written ++ s.sending_queue)))
run-exact (e ∷ es) s m o h =
    let (exact, rest) = step-IsExact e es s m o h in
    let (r, stepped, still_open, busy, all) = IsExact-cases _ (step e s) exact in
    let (t, ran, end_busy, end_all) = run-exact es r rest still_open busy in
    (
      t,
      rw stepped ran,
      end_busy,
      end_all
          ∙ rw (all, sent-cons e es)
              (append_assoc (s.written ++ s.sending_queue) (sent (e ∷ [])) (sent es)),
    )

-- On a stream that is open, and as long as every write completes without an error, what was written
-- and what waits are together exactly what was sent, in order, and while anything waits a write of
-- the queue's front is outstanding.
pub run-lossless :
    (es : List Event)
    → IsSmooth es
    → (r : Sending) × (run es (new true) ≡ some r)
      × IsBusy r.writes r.sending_queue
      × (r.written ++ r.sending_queue ≡ sent es)
run-lossless es m =
    let (r, ran, busy, all) = run-exact es (new true) m (unfold new in refl) (unfold new in refl) in
    (r, ran, busy, unfold new in all)
