-- ===== src/Endpoint/Halting.antt =====
-- The process closes its connection once and ends (src/connectServer.cpp, src/connectClient.cpp).
use ros2_connect.Prelude.{ℕ, ◌+◌, ◌≡◌, Bool, true, false, Option, none, some, List, [], ◌∷◌, length}
use ros2_connect.Config.Global.{GlobalConfig}
use ros2_connect.Endpoint.Thread.{Hooks, Thread}
use ros2_connect.Endpoint.Process.{Process, Exit, failure, success, spinning}

module _ {ℓ} {S : Type ℓ} where
  -- Every thread was stopped and joined.
  abbrev pub AreJoined : List (Thread S) → Type 0
  AreJoined [] = Unit
  AreJoined (t ∷ ts) = (t.stopping ≡ true) × (t.has_thread ≡ false) × AreJoined ts

  unfoldable pub held : Option (Thread S) → ℕ
  held none = 0
  held (some t) = 1

  -- The connections that the process made, all but the last of them closed.
  record IsKept (n : ℕ) (p : Process S) : Type 0 where
    pub joined : AreJoined p.closed
    pub made : held p.connection + length p.closed ≡ n

  -- The process came to its end with `n` connections made.
  pub record IsClosed (n : ℕ) (p : Process S) : Type 0 where
    pub no_connection : held p.connection ≡ 0
    pub no_publisher : p.status_publisher ≡ false
    pub is_shutdown : p.is_shutdown ≡ true
    pub joined : AreJoined p.closed
    pub made : length p.closed ≡ n

  -- The process exits in this way, with this many connections made and closed.
  abbrev pub EndsWith : Exit → ℕ → Option (Exit × Process S) → Type 0
  EndsWith x n none = ⊥
  EndsWith x n (some (y, p)) = (y ≡ x) × IsClosed n p

-- How the process exits, and how many connections it makes.
unfoldable pub exit_code : Option ℕ → Exit
exit_code none = failure
exit_code (some n) = success

unfoldable pub connections_made : Option ℕ → Option GlobalConfig → ℕ
connections_made none g = 0
connections_made (some n) none = 0
connections_made (some n) (some g) = 1

-- A stopped connection's thread ends.
abbrev pub Ends : {S : Type 0} → Hooks S → Type 0
Ends {S} hooks =
    (s : S) → hooks.run_returns (hooks.on_stop_thread (hooks.on_before_stop_thread s)) ≡ true

module _ {S : Type 0} (hooks : Hooks S) (make : S) (ends : Ends hooks) where
  -- A `spin` that makes one connection.
  abbrev HasSpun : (GlobalConfig → Process S → Option (Process S)) → Type 0
  HasSpun spin =
      (g : GlobalConfig) (p : Process S)
      → (b : Bool) × (r : Bool × Thread S) × (spin g p ≡ some (spinning hooks make b p r))
