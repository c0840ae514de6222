-- ===== src/Connection/Order.antt =====
-- One write at a time, in the order of the calls: the outgoing queue over any sequence of events
-- (src/connection/base/connectionBase.cpp and
-- src/websocketConnection/base/websocketConnectionBase.hpp).
use ros2_connect.Prelude.{
  ℕ, suc, ◌≡◌, refl, sym, ◌==◌, Bool, true, false, Option, none, some, List, [], ◌∷◌, ◌++◌, length,
  arith,
}
use mathlib.Core.List.{append-nil, append_assoc}
use ros2_connect.Connection.Sending.{
  Sending, Event, send, complete, opened, closed, new, queue_message, on_write, step, run,
}

-- The first list is the second one without some of its elements.
pub data Sublist : List (List ℕ) → List (List ℕ) → Type 0 where
  done : Sublist [] []
  keep : {x : List ℕ} {xs ys : List (List ℕ)} → Sublist xs ys → Sublist (x ∷ xs) (x ∷ ys)
  skip : {x : List ℕ} {xs ys : List (List ℕ)} → Sublist xs ys → Sublist xs (x ∷ ys)

-- What the events ask to send.
unfoldable pub sent : List Event → List (List ℕ)
sent [] = []
sent (send bytes ∷ es) = bytes ∷ sent es
sent (complete failed ∷ es) = sent es
sent (opened ∷ es) = sent es
sent (closed ∷ es) = sent es

nil-Sublist : (ys : List (List ℕ)) → Sublist [] ys
nil-Sublist [] = done
nil-Sublist (y ∷ ys) = skip (nil-Sublist ys)

pub Sublist_self : (xs : List (List ℕ)) → Sublist xs xs
Sublist_self [] = done
Sublist_self (x ∷ xs) = keep (Sublist_self xs)

Sublist_trans : {xs ys zs : List (List ℕ)} → Sublist xs ys → Sublist ys zs → Sublist xs zs
Sublist_trans l done = l
Sublist_trans l (skip m) = skip (Sublist_trans l m)
Sublist_trans (keep l) (keep m) = keep (Sublist_trans l m)
Sublist_trans (skip l) (keep m) = skip (Sublist_trans l m)

Sublist-prefix :
    (front : List (List ℕ)) {xs ys : List (List ℕ)}
    → Sublist xs ys
    → Sublist (front ++ xs) (front ++ ys)
Sublist-prefix [] l = l
Sublist-prefix (a ∷ front) l = keep (Sublist-prefix front l)

Sublist-append :
    {xs ys : List (List ℕ)} (zs : List (List ℕ)) → Sublist xs ys → Sublist (xs ++ zs) (ys ++ zs)
Sublist-append zs done = Sublist_self zs
Sublist-append zs (keep l) = keep (Sublist-append zs l)
Sublist-append zs (skip l) = skip (Sublist-append zs l)

Sublist-left : (xs ys : List (List ℕ)) → Sublist xs (xs ++ ys)
Sublist-left [] ys = nil-Sublist ys
Sublist-left (x ∷ xs) ys = keep (Sublist-left xs ys)

-- No write is outstanding, or exactly that of the queue's front.
abbrev pub IsSingle : List (List ℕ) → List (List ℕ) → Type 0
IsSingle [] q = Unit
IsSingle (w ∷ ws) [] = ⊥
IsSingle (w ∷ ws) (x ∷ q) = (w ≡ x) × (ws ≡ [])

-- Everything that was written or still waits.
abbrev pub passed : Sending → List (List ℕ)
passed s = s.written ++ s.sending_queue

-- The queue did not fault, has at most one write, and holds back or drops but never reorders.
abbrev pub IsOrdered : List (List ℕ) → Option Sending → Type 0
IsOrdered bound none = ⊥
IsOrdered bound (some r) = IsSingle r.writes r.sending_queue × Sublist (passed r) bound

abbrev pub state : List (List ℕ) → Bool → List (List ℕ) → List (List ℕ) → ℕ → Sending
state q o w d n = record {
  sending_queue = q;
  is_open = o;
  writes = w;
  written = d;
  stop_requests = n;
}

IsSingle-front :
    (w : List (List ℕ)) (x : List ℕ) (q r : List (List ℕ)) → IsSingle w (x ∷ q) → IsSingle w (x ∷ r)
IsSingle-front [] x q r h = tt
IsSingle-front (y ∷ w) x q r h = h

queued :
    (d q : List (List ℕ)) (bytes : List ℕ)
    → Sublist (d ++ (q ++ bytes ∷ [])) ((d ++ q) ++ bytes ∷ [])
queued d q bytes = rw (append_assoc d q (bytes ∷ [])) (Sublist_self _)

written_next :
    (d q : List (List ℕ)) (x y : List ℕ) → x ≡ y → Sublist ((d ++ x ∷ []) ++ q) (d ++ y ∷ q)
written_next d q x y e = rw (append_assoc d (x ∷ []) q, e) (Sublist_self _)

pub not_one : (q : List (List ℕ)) → (suc (suc (length q)) == 1) ≡ false
not_one q = ground arith

pub not_zero : (q : List (List ℕ)) → (suc (length q) == 0) ≡ false
not_zero q = ground arith

send-IsOrdered :
    (bytes : List ℕ) (q : List (List ℕ)) (o : Bool) (w d : List (List ℕ)) (n : ℕ)
    → IsSingle w q
    → IsOrdered ((d ++ q) ++ bytes ∷ []) (step (send bytes) (state q o w d n))
unfolding step
send-IsOrdered bytes [] o (x ∷ w) d n h = absurd h
send-IsOrdered bytes [] true [] d n h = unfold queue_message in ((refl, refl), queued d [] bytes)
send-IsOrdered bytes [] false [] d n h =
    unfold queue_message in (tt, rw (append-nil d) (Sublist-left d (bytes ∷ [])))
send-IsOrdered bytes (x ∷ []) o w d n h =
    unfold queue_message in (IsSingle-front w x [] (bytes ∷ []) h, queued d (x ∷ []) bytes)
send-IsOrdered bytes (x ∷ y ∷ q) o w d n h =
    unfold queue_message in
    rw (not_one (q ++ bytes ∷ []))
      (IsSingle-front w x (y ∷ q) (y ∷ (q ++ bytes ∷ [])) h, queued d (x ∷ y ∷ q) bytes)

complete-IsOrdered :
    (failed : Bool) (q : List (List ℕ)) (o : Bool) (w d : List (List ℕ)) (n : ℕ)
    → IsSingle w q
    → IsOrdered (d ++ q) (step (complete failed) (state q o w d n))
unfolding step
complete-IsOrdered failed q o [] d n h = (tt, Sublist_self (d ++ q))
complete-IsOrdered failed [] o (x ∷ w) d n h = absurd h
complete-IsOrdered true (y ∷ q) o (x ∷ w) d n (e, none_left) =
    unfold on_write in rw none_left (tt, Sublist-prefix d (skip (Sublist_self q)))
complete-IsOrdered false (y ∷ []) o (x ∷ w) d n (e, none_left) =
    unfold on_write in rw none_left (tt, written_next d [] x y e)
complete-IsOrdered false (y ∷ z ∷ q) true (x ∷ w) d n (e, none_left) =
    unfold on_write in rw (none_left, not_zero q) ((refl, refl), written_next d (z ∷ q) x y e)
complete-IsOrdered false (y ∷ z ∷ q) false (x ∷ w) d n (e, none_left) =
    unfold on_write in
    rw (none_left, not_zero q)
      (
        tt,
        Sublist_trans (Sublist-append [] (Sublist-left (d ++ x ∷ []) (z ∷ q)))
            (rw (append-nil ((d ++ x ∷ []) ++ z ∷ q)) (written_next d (z ∷ q) x y e)),
      )

step-IsOrdered :
    (e : Event) (s : Sending)
    → IsSingle s.writes s.sending_queue
    → IsOrdered (passed s ++ sent (e ∷ [])) (step e s)
unfolding sent
step-IsOrdered (send bytes) s h =
    send-IsOrdered bytes s.sending_queue s.is_open s.writes s.written s.stop_requests h
step-IsOrdered (complete failed) s h =
    rw (append-nil (passed s))
      (complete-IsOrdered failed s.sending_queue s.is_open s.writes s.written s.stop_requests h)
step-IsOrdered opened s h = unfold step in (h, Sublist-left (passed s) [])
step-IsOrdered closed s h = unfold step in (h, Sublist-left (passed s) [])

pub sent-cons : (e : Event) (es : List Event) → sent (e ∷ es) ≡ sent (e ∷ []) ++ sent es
unfolding sent
sent-cons (send bytes) es = refl
sent-cons (complete failed) es = refl
sent-cons opened es = refl
sent-cons closed es = refl

IsOrdered-cases :
    (bound : List (List ℕ)) (o : Option Sending)
    → IsOrdered bound o
    → (r : Sending) × (o ≡ some r) × IsSingle r.writes r.sending_queue × Sublist (passed r) bound
IsOrdered-cases bound none h = absurd h
IsOrdered-cases bound (some r) h = (r, refl, h.0, h.1)

run-from :
    (es : List Event) (s : Sending)
    → IsSingle s.writes s.sending_queue
    → (r : Sending) × (run es s ≡ some r)
      × IsSingle r.writes r.sending_queue
      × Sublist (passed r) (passed s ++ sent es)
unfolding run
run-from [] s h = (s, refl, h, unfold sent in Sublist-left (passed s) [])
run-from (e ∷ es) s h =
    let (r, stepped, single, before) =
      IsOrdered-cases (passed s ++ sent (e ∷ [])) (step e s) (step-IsOrdered e s h) in
    let (t, ran, alone, after) = run-from es r single in
    (
      t,
      rw stepped ran,
      alone,
      rw (sent-cons e es, sym (append_assoc (passed s) (sent (e ∷ [])) (sent es)))
          (Sublist_trans after (Sublist-append (sent es) before)),
    )

-- Whatever happens on the strand of a new connection - sends, completions with and without an
-- error, the stream opening and closing - the queue never takes from an empty one, at most one
-- write is outstanding and it is that of the queue's front, and what was written, followed by what
-- waits, are messages that were sent, each once and in the order of the calls.
pub run-IsSingle :
    (es : List Event) (is_open : Bool)
    → (r : Sending) × (run es (new is_open) ≡ some r)
      × IsSingle r.writes r.sending_queue
      × Sublist (r.written ++ r.sending_queue) (sent es)
run-IsSingle es is_open =
    let (r, ran, single, ordered) = run-from es (new is_open) (unfold new in tt) in
    (r, ran, single, unfold new in ordered)
