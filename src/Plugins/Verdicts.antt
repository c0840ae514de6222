-- ===== src/Plugins/Verdicts.antt =====
-- What becomes of a request and of a goal that the other side sends:
-- include/connect/service/serviceClient.hpp and include/connect/action/actionClient.hpp.
use ros2_connect.Prelude.{
  ℕ, ◌≡◌, refl, Bool, true, false, not, ◌||◌, ◌&&◌, Option, none, some, List, [], ◌∷◌, ◌++◌, length,
  ◌==◌, ==_self, if◌then◌else◌, ◌>>=◌, ◌>>◌, guard, arith,
}
use ros2_connect.Message.Codes.{action_to_server_goal_reject}
use ros2_connect.Message.Codec.{Codec}
use ros2_connect.Message.ServiceAction.{ServiceActionMessage, get_data}
use ros2_connect.Plugins.Handles.{Plugin, Effect, sent, goal_sent, decompressed, modify, perform}
use ros2_connect.Plugins.ActionClient

-- The message that is handed on: one that can be decompressed and has an expected size, while
-- somebody is there to take it.
unfoldable pub admitted :
    Codec → Bool → ℕ → Bool → ServiceActionMessage → Option ServiceActionMessage
unfolding decompressed get_data
admitted codec dynamic_size expected_size available m = do
  d ← decompressed codec m
  guard (dynamic_size || length (get_data d) == expected_size)
  guard available
  some d

-- The single effect of a goal, and whether its handle is done with it.
abbrev pub goal_effect : List ℕ → ℕ → Option ServiceActionMessage → Effect
goal_effect gid h none = sent action_to_server_goal_reject [] gid
goal_effect gid h (some d) = goal_sent d h

abbrev pub is_none : Option ServiceActionMessage → Bool
is_none none = true
is_none (some d) = false

-- A handle after its goal was executed.
abbrev pub IsExecuted : List ℕ → ℕ → Option ServiceActionMessage → Plugin → Plugin → Type 0
IsExecuted gid h verdict p q =
    (q.effects ≡ p.effects ++ goal_effect gid h verdict ∷ [])
    × ((q.objects h).handling_goal ≡ not (is_none verdict))
    × ((q.objects h).done ≡ ((p.objects h).done || is_none verdict))

module _ (c : ActionClient.Client) (h : ℕ) (p : Plugin) where
  abbrev handling : Plugin
  handling = modify h (λ o. record o { handling_goal = true }) p

  abbrev Executed : Option ServiceActionMessage → Plugin → Type 0
  Executed v q = IsExecuted (p.objects h).gid h v p q

  rejected : Executed none (ActionClient.reject h handling)
  unfolding ActionClient.reject
  rejected = (rw (==_self h) refl, rw (==_self h) refl, rw (==_self h) (ground arith))

  sent_on : (d : ServiceActionMessage) → Executed (some d) (perform (goal_sent d h) handling)
  sent_on d = (refl, rw (==_self h) refl, rw (==_self h) (ground arith))

-- The chain of tests, as one decision.
tests :
    {A : Type 0} (P : Option ServiceActionMessage → A → Type 0) (d : ServiceActionMessage)
    (a b w s : Bool) (r l k : A)
    → s ≡ false
    → P none r
    → P (some d) k
    → P
        (guard (a || b) >> (guard w >> some d))
        (if not a && not b then r else if not w then r else if s then l else k)
tests P d a b w true r l k e rejects hands_on = cc
tests P d true b true false r l k e rejects hands_on = hands_on
tests P d true b false false r l k e rejects hands_on = rejects
tests P d false true true false r l k e rejects hands_on = hands_on
tests P d false true false false r l k e rejects hands_on = rejects
tests P d false false true false r l k e rejects hands_on = rejects
tests P d false false false false r l k e rejects hands_on = rejects

module _ (codec : Codec) (c : ActionClient.Client) (h : ℕ) (p : Plugin)
    (s : p.stopping ≡ false) where
  found-Executed :
      (found : Option ServiceActionMessage)
      → Executed c h p
          (found >>= λ d.
            guard (c.dynamic_size || length (get_data d) == c.expected_size)
            >> (guard c.wait_for_action >> some d))
          (elim found [
            | none ↦ ActionClient.reject h (handling c h p)
            | some d ↦ ActionClient.execute_message c d h (handling c h p)
          ])
  unfolding ActionClient.execute_message
  found-Executed none = rejected c h p
  found-Executed (some d) =
      tests (Executed c h p) d c.dynamic_size (length (get_data d) == c.expected_size)
        c.wait_for_action p.stopping _ _ _ s (rejected c h p) (sent_on c h p d)

-- A goal that an action client's thread executes while the plugin does not stop is answered at once
-- or handed to the local action server, never both and never neither: if the message can be
-- decompressed, has the expected size and the server is there, exactly it is handed on and the handle
-- waits for the goal's response; otherwise a reject goes back and the handle is done.
pub execute_goal-IsExecuted :
    (codec : Codec) (c : ActionClient.Client) (m : ServiceActionMessage) (h : ℕ) (p : Plugin)
    → p.stopping ≡ false
    → IsExecuted
        (p.objects h).gid
        h
        (admitted codec c.dynamic_size c.expected_size c.wait_for_action m)
        p
        (ActionClient.execute_goal codec c m h p)
unfolding ActionClient.execute_goal admitted
execute_goal-IsExecuted codec c m h p s = found-Executed codec c h p s (decompressed codec m)
