-- ===== src/Endpoint/Thread.antt =====
-- src/common/thread.cpp: an object with a std::thread, and the hooks of the classes that derive
-- from it.
use ros2_connect.Prelude.{
  ℕ, Bool, true, false, Option, none, some, List, [], ◌∷◌, ◌++◌, length, take, ltb, if◌then◌else◌,
}

-- The virtual functions, on the state of the derived class.
pub record Hooks {ℓ} (S : Type ℓ) : Type ℓ where
  pub on_before_start_thread : S → Bool × S
  pub on_after_start_thread : S → S
  pub on_before_stop_thread : S → S
  pub on_stop_thread : S → S
  pub on_after_join_thread : S → S
  -- Whether `run`, which the std::thread executes, comes to its end from this state on.
  pub run_returns : S → Bool

-- `has_thread` tells that there is a std::thread, which is then not joined yet.
pub record Thread {ℓ} (S : Type ℓ) : Type ℓ where
  pub stopping : Bool
  pub has_thread : Bool
  pub names : List (List ℕ)
  pub object : S

abbrev pub new {ℓ} : {S : Type ℓ} → S → Thread S
new s = record { stopping = false; has_thread = false; names = []; object = s }

module _ {ℓ} {S : Type ℓ} (hooks : Hooks S) where
  -- `setThreadName`: the name that the thread gets has at most 15 characters.
  unfoldable pub set_thread_name : List ℕ → Thread S → Thread S
  set_thread_name name t =
      if t.has_thread then record t { names = t.names ++ take 15 name ∷ [] } else t

  -- The rest of `startThread`, once the std::thread was created.
  unfoldable pub begin : List ℕ → Thread S → Thread S
  unfolding set_thread_name
  begin name t =
      let named = if ltb 0 (length name) then set_thread_name name t else t in
      record named { object = hooks.on_after_start_thread named.object }

  -- Behind `onBeforeStartThread`; `created` tells whether the std::thread could be created.
  unfoldable pub create : Bool → List ℕ → Thread S → Bool × S → Bool × Thread S
  unfolding begin
  create created name t (ok, object) =
      if ok
      then (if created
          then (true, begin name (record t { has_thread = true; object = object }))
          else (false, record t { object = object }))
      else (false, record t { object = object })

  -- `startThread`. A std::thread that was not joined is deleted, which ends the process: `none`.
  unfoldable pub start_thread : Bool → List ℕ → Thread S → Option (Bool × Thread S)
  unfolding create
  start_thread created name t =
      if t.has_thread
      then none
      else some (
          create created name (record t { stopping = false })
            (hooks.on_before_start_thread t.object))

  unfoldable pub stop_thread : Thread S → Thread S
  stop_thread t = record t {
    stopping = true;
    object = hooks.on_stop_thread (hooks.on_before_stop_thread t.object);
  }

  -- `joinThread`; `none` waits for ever.
  unfoldable pub join_thread : Thread S → Option (Thread S)
  join_thread t =
      if t.has_thread
      then (if hooks.run_returns t.object
          then some (record t { has_thread = false; object = hooks.on_after_join_thread t.object })
          else none)
      else some t
