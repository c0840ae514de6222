-- ===== src/Plugins/Shadowed.antt =====
-- A second request of a client of include/connect/service/serviceServer.hpp, whose goal id is the
-- client's.
use ros2_connect.Prelude.{
  ℕ, ◌<◌, ◌≡◌, refl, sym, ap, ◌∙◌, Bool, true, false, Option, none, some, List, [], ◌∷◌, ◌++◌, ◌==◌,
  ==_iff, ==_self, if◌then◌else◌, lookup, insert, lookup-insert, bytes_key, bytes_beq,
  bytes_beq_iff, Bool-cases, inl, inr, arith, ℤ,
}
use ros2_connect.Message.Codes.{service_to_server}
use ros2_connect.Message.Codec.{Codec}
use ros2_connect.Message.ServiceAction.{ServiceActionMessage, get_gid_string}
use ros2_connect.Plugins.Handles.{Plugin, modify, is_service_action_op_code}
use ros2_connect.Plugins.ServiceServer.{
  handle, respond, send_request, finish_request, waiting, returned, wake_request,
}
use ros2_connect.Plugins.Consistent.{IsConsistent}
use ros2_connect.Plugins.Answers.{handle_all, asked, asked_lem}

-- A handle that no entry of the map points to, and that has no response.
record IsUnheard (h : ℕ) (p : Plugin) : Type 0 where
  unlisted : (k : List ℕ) (j : ℕ) → lookup k p.handles ≡ some j → (h == j) ≡ false
  silent : (p.objects h).goal_response ≡ none
  running : p.stopping ≡ false

found-IsUnheard :
    (h : ℕ) (m : ServiceActionMessage) (p : Plugin)
    → IsUnheard h p
    → (found : Option ℕ) → lookup (get_gid_string m) p.handles ≡ found
    → IsUnheard h (elim found [ none ↦ p | some j ↦ modify j (respond m) p ])
found-IsUnheard h m p u none at = u
found-IsUnheard h m p u (some j) at = record {
  unlisted = u.unlisted;
  silent = rw (u.unlisted (get_gid_string m) j at) u.silent;
  running = u.running;
}

handle-IsUnheard :
    (h : ℕ) (m : ServiceActionMessage) (p : Plugin) → IsUnheard h p → IsUnheard h (handle m p)
unfolding handle
handle-IsUnheard h m p u = elim (Bool-cases (is_service_action_op_code service_to_server m)) [
  | inl is_op ↦ rw is_op (found-IsUnheard h m p u (lookup (get_gid_string m) p.handles) refl)
  | inr not_op ↦ rw not_op u
]

handle_all-IsUnheard :
    (h : ℕ) (ms : List ServiceActionMessage) (p : Plugin)
    → IsUnheard h p
    → IsUnheard h (handle_all ms p)
unfolding handle_all
handle_all-IsUnheard h [] p u = u
handle_all-IsUnheard h (m ∷ ms) p u =
    handle_all-IsUnheard h ms (handle m p) (handle-IsUnheard h m p u)

-- An insertion under a key that is there changes no entry.
unchanged :
    (key k : List ℕ) (next h j : ℕ) (m : List (List ℕ × ℕ))
    → lookup key m ≡ some h
    → lookup k (insert key next m) ≡ some j
    → lookup k m ≡ some j
unchanged key k next h j m there e = elim (Bool-cases (bytes_beq key k)) [
  | inl same ↦
      (let equal = (bytes_beq_iff key k).0 same in
        let here : lookup k m ≡ some h = ap (λ q. lookup q m) (sym equal) ∙ there in
        here ∙ (rw (same, here) at (sym (lookup-insert key k next m) ∙ e)))
  | inr different ↦ rw different at (sym (lookup-insert key k next m) ∙ e)
]

fresh_pointer : (n j : ℕ) → j < n → (n == j) ≡ false
fresh_pointer n j b = ground (arith, ==_iff n j)

asked-IsUnheard :
    (bytes gid : List ℕ) (n : ℤ) (h : ℕ) (p : Plugin)
    → IsConsistent p
    → p.stopping ≡ false
    → lookup (gid ++ 0 ∷ []) p.handles ≡ some h
    → IsUnheard p.next (asked bytes gid n p)
asked-IsUnheard bytes gid n h p c s there = record {
  unlisted = λ k j e.
      fresh_pointer p.next j (c k j (unchanged (gid ++ 0 ∷ []) k p.next h j p.handles there e)).0;
  silent = rw (==_self p.next) refl;
  running = s;
}

wake_request-silent :
    (codec : Codec) (dynamic_size timed_out : Bool) (n h : ℕ) (p : Plugin)
    → IsUnheard h p
    → (wake_request codec dynamic_size n true timed_out h p).1
      ≡ (if timed_out then returned none else waiting)
unfolding wake_request finish_request
wake_request-silent codec dynamic_size true n h p u = rw (u.silent, u.running) refl
wake_request-silent codec dynamic_size false n h p u = rw (u.silent, u.running) refl

-- A request of a client whose earlier request is still open is never answered: whatever messages
-- arrive, a response for its goal id included, it waits until its time is over and then returns the
-- null pointer.
pub send_request-unanswered :
    (codec : Codec) (dynamic_size timed_out : Bool) (expected_size h : ℕ) (bytes gid : List ℕ)
    (n : ℤ) (ms : List ServiceActionMessage) (p : Plugin)
    → IsConsistent p
    → p.stopping ≡ false
    → lookup (gid ++ 0 ∷ []) p.handles ≡ some h
    → (wake_request codec dynamic_size expected_size true timed_out p.next
        (handle_all ms (send_request bytes gid n p).0)).1
      ≡ (if timed_out then returned none else waiting)
send_request-unanswered codec dynamic_size timed_out expected_size h bytes gid n ms p c s there =
    rw (asked_lem bytes gid n p s) (
      wake_request-silent codec dynamic_size timed_out expected_size p.next _ (
        handle_all-IsUnheard p.next ms (asked bytes gid n p)
          (asked-IsUnheard bytes gid n h p c s there)))
