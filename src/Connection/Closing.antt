-- ===== src/Connection/Closing.antt =====
-- Every started connection is closed exactly once (src/connection/connectionManager.hpp).
use ros2_connect.Prelude.{
  ℕ, zero, suc, ◌+◌, ◌≤◌, ◌≡◌, refl, ap, ◌∙◌, ◌==◌, ==_iff, ==_self, Bool, true, false, List, [],
  ◌∷◌, ◌++◌, length, inl, inr, Bool-cases, if◌then◌else◌, arith,
}
use ros2_connect.Connection.Registry.{
  Action, stop_thread, join_thread, close, connection_close_callback, ConnectionManager, new,
  start_connection, is_member, erase_first, stop_actions, stop_connection_internal, stop_round,
  stop_all, stop_all_connections, Request, start, stop, serve,
}

unfoldable pub count : ℕ → List ℕ → ℕ
count j [] = 0
count j (c ∷ cs) = (if c == j then 1 else 0) + count j cs

-- How often a connection was closed.
unfoldable pub closes : ℕ → List Action → ℕ
closes j [] = 0
closes j (close c ∷ as_) = (if c == j then 1 else 0) + closes j as_
closes j (stop_thread c ∷ as_) = closes j as_
closes j (join_thread c ∷ as_) = closes j as_
closes j (connection_close_callback ∷ as_) = closes j as_

-- How often a connection was started with success.
unfoldable pub starts : ℕ → List Request → ℕ
starts j [] = 0
starts j (start c started ∷ rs) = (if started then (if c == j then 1 else 0) else 0) + starts j rs
starts j (stop c ∷ rs) = starts j rs

count-snoc :
    (j c : ℕ) (cs : List ℕ) → count j (cs ++ c ∷ []) ≡ count j cs + (if c == j then 1 else 0)
unfolding count
count-snoc j c [] = ground arith
count-snoc j c (d ∷ cs) = ground (arith, count-snoc j c cs)

count-erase_first :
    (j c : ℕ) (cs : List ℕ)
    → count j cs
      ≡ (if is_member c cs then (if c == j then 1 else 0) else 0) + count j (erase_first c cs)
unfolding count erase_first is_member
count-erase_first j c [] = refl
count-erase_first j c (d ∷ cs) =
    ground (arith, count-erase_first j c cs, ==_iff d c, ==_iff c j, ==_iff d j)

closes-append : (j : ℕ) (xs ys : List Action) → closes j (xs ++ ys) ≡ closes j xs + closes j ys
unfolding closes
closes-append j [] ys = omega arith
closes-append j (close c ∷ xs) ys = ground (arith, closes-append j xs ys)
closes-append j (stop_thread c ∷ xs) ys = closes-append j xs ys
closes-append j (join_thread c ∷ xs) ys = closes-append j xs ys
closes-append j (connection_close_callback ∷ xs) ys = closes-append j xs ys

closes-stop_actions : (j c : ℕ) (b : Bool) → closes j (stop_actions c b) ≡ (if c == j then 1 else 0)
unfolding closes
closes-stop_actions j c true = ground arith
closes-stop_actions j c false = ground arith

-- The connections that are there and those that were closed.
abbrev total : ℕ → ConnectionManager → ℕ
total j s = count j s.connections + closes j s.actions

total-stop :
    (j c : ℕ) (b : Bool) (s : ConnectionManager)
    → total j (stop_connection_internal c b s) ≡ total j s
unfolding stop_connection_internal
total-stop j c b s = elim (Bool-cases (is_member c s.connections)) [
  | inl e ↦
      let left = count-erase_first j c s.connections in
      let done = closes-append j s.actions (stop_actions c b) in
      rw e (ground (arith, e, left, done, closes-stop_actions j c b))
  | inr e ↦ rw e refl
]

total-serve :
    (j : ℕ) (rs : List Request) (s : ConnectionManager)
    → total j (serve rs s) ≡ total j s + starts j rs
unfolding serve starts
total-serve j [] s = omega arith
total-serve j (start c true ∷ rs) s =
    total-serve j rs (start_connection c true s)
    ∙ unfold start_connection in omega (arith, count-snoc j c s.connections)
total-serve j (start c false ∷ rs) s =
    total-serve j rs (start_connection c false s) ∙ unfold start_connection in omega arith
total-serve j (stop c ∷ rs) s =
    total-serve j rs (stop_connection_internal c true s)
    ∙ ap (λ n. n + starts j rs) (total-stop j c true s)

total-stop_round :
    (j : ℕ) (again : ConnectionManager → ConnectionManager)
    → ((s : ConnectionManager) → total j (again s) ≡ total j s)
    → (cs : List ℕ) (s : ConnectionManager) → total j (stop_round again cs s) ≡ total j s
unfolding stop_round
total-stop_round j again ih [] s = refl
total-stop_round j again ih (c ∷ cs) s =
    ih (stop_connection_internal c false s) ∙ total-stop j c false s

total-stop_all : (j fuel : ℕ) (s : ConnectionManager) → total j (stop_all fuel s) ≡ total j s
unfolding stop_all
total-stop_all j zero s = refl
total-stop_all j (suc fuel) s =
    total-stop_round j (stop_all fuel) (total-stop_all j fuel) s.connections s

stop-front :
    (c : ℕ) (cs : List ℕ) (s : ConnectionManager)
    → s.connections ≡ c ∷ cs
    → (stop_connection_internal c false s).connections ≡ cs
unfolding stop_connection_internal is_member erase_first
stop-front c cs s e = rw (e, ==_self c) refl

stop_round-nil :
    (fuel : ℕ) (again : ConnectionManager → ConnectionManager)
    → ((s : ConnectionManager) → length s.connections ≤ fuel → (again s).connections ≡ [])
    → (cs : List ℕ) (s : ConnectionManager) → s.connections ≡ cs
    → length cs ≤ suc fuel
    → (stop_round again cs s).connections ≡ []
unfolding stop_round
stop_round-nil fuel again ih [] s e h = e
stop_round-nil fuel again ih (c ∷ cs) s e h =
    ih (stop_connection_internal c false s) (rw (stop-front c cs s e) (omega (arith, h)))

length-zero : (cs : List ℕ) → length cs ≤ 0 → cs ≡ []
length-zero [] h = refl
length-zero (c ∷ cs) h = elim h [ ]

pub stop_all-nil :
    (fuel : ℕ) (s : ConnectionManager)
    → length s.connections ≤ fuel
    → (stop_all fuel s).connections ≡ []
unfolding stop_all
stop_all-nil zero s h = length-zero s.connections h
stop_all-nil (suc fuel) s h =
    stop_round-nil fuel (stop_all fuel) (stop_all-nil fuel) s.connections s refl h

-- After any requests, and the shutdown that follows them, no connection is left, and each one was
-- closed exactly as often as it was started with success, however often it was asked to stop.
pub stop_all_connections-closes :
    (rs : List Request) (j : ℕ)
    → ((stop_all_connections (serve rs new)).connections ≡ [])
      × (closes j (stop_all_connections (serve rs new)).actions ≡ starts j rs)
stop_all_connections-closes rs j =
    let s = serve rs new in
    let none_left = stop_all-nil (length s.connections) s (omega arith) in
    let kept = total-stop_all j (length s.connections) s ∙ total-serve j rs new in
    unfold stop_all_connections in
    (none_left, unfold count closes in omega (arith, kept, ap (count j) none_left))

pub none_left : (m : ConnectionManager) → (stop_all_connections m).connections ≡ []
unfolding stop_all_connections
none_left m = stop_all-nil (length m.connections) m (omega arith)
