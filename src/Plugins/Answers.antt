-- ===== src/Plugins/Answers.antt =====
-- What a request of include/connect/service/serviceServer.hpp waits for, and what it returns.
use ros2_connect.Prelude.{
  ℕ, ◌≡◌, refl, sym, ap, ◌∙◌, Bool, true, false, ◌&&◌, ◌||◌, Option, none, some, List, [], ◌∷◌,
  ◌++◌, length, ◌==◌, ==_iff, ==_self, if◌then◌else◌, lookup, lookup-insert, bytes_key, bytes_beq,
  bytes_beq_iff, Bool-cases, inl, inr, arith, ℤ,
}
use ros2_connect.Message.Codes.{service_to_client, service_to_server}
use ros2_connect.Message.Codec.{Codec}
use ros2_connect.Message.ServiceAction.{ServiceActionMessage, get_gid_string, get_data}
use ros2_connect.Plugins.Handles.{
  Handle, Plugin, gid_string, sent, modify, perform, store_handle, is_service_action_op_code,
  decompressed,
}
use ros2_connect.Plugins.ServiceServer.{
  handle, respond, request_handle, send_request, Progress, waiting, returned, accept_response,
  finish_request, wake_request,
}
use ros2_connect.Plugins.Consistent.{IsConsistent, modify-IsConsistent, store_handle-IsConsistent}

respond-gid : (m : ServiceActionMessage) (o : Handle) → (respond m o).gid ≡ o.gid
respond-gid m o = ground arith

unfoldable pub handle_all : List ServiceActionMessage → Plugin → Plugin
unfolding handle
handle_all [] p = p
handle_all (m ∷ ms) p = handle_all ms (handle m p)

-- Whether a message is a response for a goal id, and the last such message.
unfoldable pub is_response : List ℕ → ServiceActionMessage → Bool
unfolding get_gid_string
is_response key m =
    is_service_action_op_code service_to_server m && bytes_beq (get_gid_string m) key

unfoldable pub last_response :
    List ℕ → List ServiceActionMessage → Option ServiceActionMessage → Option ServiceActionMessage
unfolding is_response
last_response key [] last = last
last_response key (m ∷ ms) last = last_response key ms (if is_response key m then some m else last)

-- A request that waits: its handle is the one of its goal id.
record IsWaiting (key : List ℕ) (h : ℕ) (last : Option ServiceActionMessage) (p : Plugin)
    : Type 0 where
  consistent : IsConsistent p
  found : lookup key p.handles ≡ some h
  running : p.stopping ≡ false
  waits : (p.objects h).handling_goal ≡ true
  response : (p.objects h).goal_response ≡ last

-- A message for another goal id.
other :
    (key : List ℕ) (h j : ℕ) (m : ServiceActionMessage) (last : Option ServiceActionMessage)
    (p : Plugin)
    → IsWaiting key h last p
    → (h == j) ≡ false
    → IsWaiting key h last (modify j (respond m) p)
other key h j m last p w e = record {
  consistent = modify-IsConsistent j (respond m) p (respond-gid m) w.consistent;
  found = w.found;
  running = w.running;
  waits = rw e w.waits;
  response = rw e w.response;
}

-- The response for the goal id.
own :
    (key : List ℕ) (h : ℕ) (m : ServiceActionMessage) (last : Option ServiceActionMessage)
    (p : Plugin)
    → IsWaiting key h last p
    → IsWaiting key h (some m) (modify h (respond m) p)
own key h m last p w = record {
  consistent = modify-IsConsistent h (respond m) p (respond-gid m) w.consistent;
  found = w.found;
  waits = rw (==_self h, w.waits) refl;
  running = w.running;
  response = rw (==_self h, w.waits) refl;
}

-- Two keys do not lead to one handle.
apart :
    (key other_key : List ℕ) (h j : ℕ) (p : Plugin)
    → IsConsistent p
    → lookup key p.handles ≡ some h
    → lookup other_key p.handles ≡ some j
    → bytes_beq other_key key ≡ false
    → (h == j) ≡ false
apart key other_key h j p c found found_other e = elim (Bool-cases (h == j)) [
  | inl same ↦
      (let names = ap (λ q. gid_string (p.objects q)) ((==_iff h j).0 same) in
        let equal =
          (bytes_beq_iff other_key key).1
            (sym (c other_key j found_other).1 ∙ sym names ∙ (c key h found).1) in
        ground (arith, equal, e))
  | inr different ↦ different
]

found-IsWaiting :
    (key : List ℕ) (h : ℕ) (m : ServiceActionMessage) (last : Option ServiceActionMessage)
    (p : Plugin)
    → IsWaiting key h last p
    → bytes_beq (get_gid_string m) key ≡ false
    → (found : Option ℕ) → lookup (get_gid_string m) p.handles ≡ found
    → IsWaiting key h last (elim found [ none ↦ p | some j ↦ modify j (respond m) p ])
found-IsWaiting key h m last p w e none at = w
found-IsWaiting key h m last p w e (some j) at =
    other key h j m last p w (apart key (get_gid_string m) h j p w.consistent w.found at e)

handle-IsWaiting :
    (key : List ℕ) (h : ℕ) (m : ServiceActionMessage) (last : Option ServiceActionMessage)
    (p : Plugin)
    → IsWaiting key h last p
    → IsWaiting key h (if is_response key m then some m else last) (handle m p)
unfolding handle is_response
handle-IsWaiting key h m last p w =
    elim (Bool-cases (is_service_action_op_code service_to_server m)) [
      | inr not_op ↦ rw not_op w
      | inl is_op ↦ elim (Bool-cases (bytes_beq (get_gid_string m) key)) [
        | inl same ↦
            rw
              (
                is_op,
                same,
                ap (λ k. lookup k p.handles) ((bytes_beq_iff (get_gid_string m) key).0 same),
                w.found,
              )
              (own key h m last p w)
        | inr different ↦
            rw (is_op, different)
              (found-IsWaiting key h m last p w different (lookup (get_gid_string m) p.handles)
                refl)
      ]
    ]

handle_all-IsWaiting :
    (key : List ℕ) (h : ℕ) (ms : List ServiceActionMessage) (last : Option ServiceActionMessage)
    (p : Plugin)
    → IsWaiting key h last p
    → IsWaiting key h (last_response key ms last) (handle_all ms p)
unfolding handle_all last_response
handle_all-IsWaiting key h [] last p w = w
handle_all-IsWaiting key h (m ∷ ms) last p w =
    handle_all-IsWaiting key h ms _ (handle m p) (handle-IsWaiting key h m last p w)

-- The plugin behind a request's message.
abbrev pub asked : List ℕ → List ℕ → ℤ → Plugin → Plugin
asked bytes gid n p =
    perform (sent service_to_client bytes gid) (store_handle (request_handle gid n) p)

pub asked-lookup :
    (bytes gid : List ℕ) (n : ℤ) (p : Plugin)
    → lookup (gid ++ 0 ∷ []) p.handles ≡ none
    → lookup (gid ++ 0 ∷ []) (asked bytes gid n p).handles ≡ some p.next
asked-lookup bytes gid n p free =
    lookup-insert (gid ++ 0 ∷ []) (gid ++ 0 ∷ []) p.next p.handles
    ∙ rw ((bytes_beq_iff (gid ++ 0 ∷ []) (gid ++ 0 ∷ [])).1 refl, free) refl

asked-IsWaiting :
    (bytes gid : List ℕ) (n : ℤ) (p : Plugin)
    → IsConsistent p
    → p.stopping ≡ false
    → lookup (gid ++ 0 ∷ []) p.handles ≡ none
    → IsWaiting (gid ++ 0 ∷ []) p.next none (asked bytes gid n p)
asked-IsWaiting bytes gid n p c runs free = record {
  running = runs;
  consistent = store_handle-IsConsistent (request_handle gid n) p c;
  found = asked-lookup bytes gid n p free;
  waits = rw (==_self p.next) refl;
  response = rw (==_self p.next) refl;
}

-- What the last response makes of a request: with none it waits until its time is over, and a
-- response has to be decompressed and of the expected size.
unfoldable pub answer : Codec → Bool → ℕ → Bool → ℕ → Option ServiceActionMessage → Progress
unfolding decompressed get_data
answer codec dynamic_size expected_size timed_out h none =
    if timed_out then returned none else waiting
answer codec dynamic_size expected_size timed_out h (some m) = elim (decompressed codec m) [
  | none ↦ returned none
  | some d ↦
      if dynamic_size || length (get_data d) == expected_size
      then returned (some h)
      else returned none
]

accept_response-answer :
    (dynamic_size : Bool) (n h : ℕ) (found : Option ServiceActionMessage) (p : Plugin)
    → (accept_response dynamic_size n h found p).1 ≡ (elim found [
      | none ↦ returned none
      | some d ↦
          if dynamic_size || length (get_data d) == n then returned (some h) else returned none
    ])
unfolding accept_response
accept_response-answer dynamic_size n h none p = refl
accept_response-answer dynamic_size n h (some d) p = ground arith

wake_request-answer :
    (codec : Codec) (dynamic_size timed_out : Bool) (n h : ℕ) (last : Option ServiceActionMessage)
    (p : Plugin)
    → p.stopping ≡ false
    → (p.objects h).goal_response ≡ last
    → (wake_request codec dynamic_size n true timed_out h p).1
      ≡ answer codec dynamic_size n timed_out h last
unfolding wake_request finish_request answer
wake_request-answer codec dynamic_size true n h none p s e = rw (s, e) refl
wake_request-answer codec dynamic_size false n h none p s e = rw (s, e) refl
wake_request-answer codec dynamic_size t n h (some m) p s e =
    rw (s, e) (accept_response-answer dynamic_size n h (decompressed codec m) _)

pub asked_lem :
    (bytes gid : List ℕ) (n : ℤ) (p : Plugin)
    → p.stopping ≡ false
    → send_request bytes gid n p ≡ (asked bytes gid n p, some p.next)
unfolding send_request
asked_lem bytes gid n p s = rw s refl

-- A request that a consistent service server sends, while it is not stopping and no other request
-- with the same goal id is open, gets a handle, and whatever messages then arrive, its call ends
-- according to the last response for its goal id among them and to no other message: it waits
-- while there is none, returns the null pointer once its time is over, or if the response cannot
-- be decompressed or has an unexpected size, and else returns its handle.
pub send_request-answer :
    (codec : Codec) (dynamic_size timed_out : Bool) (expected_size : ℕ) (bytes gid : List ℕ) (n : ℤ)
    (ms : List ServiceActionMessage) (p : Plugin)
    → IsConsistent p
    → p.stopping ≡ false
    → lookup (gid ++ 0 ∷ []) p.handles ≡ none
    → ((send_request bytes gid n p).1 ≡ some p.next)
      × ((wake_request codec dynamic_size expected_size true timed_out p.next
            (handle_all ms (send_request bytes gid n p).0)).1
          ≡ answer codec dynamic_size expected_size timed_out p.next
              (last_response (gid ++ 0 ∷ []) ms none))
send_request-answer codec dynamic_size timed_out expected_size bytes gid n ms p c s free =
    let w =
      handle_all-IsWaiting (gid ++ 0 ∷ []) p.next ms none (asked bytes gid n p)
        (asked-IsWaiting bytes gid n p c s free) in
    (
      ap (λ r. r.1) (asked_lem bytes gid n p s),
      rw (asked_lem bytes gid n p s) (
          wake_request-answer codec dynamic_size timed_out expected_size p.next _ _ w.running
            w.response),
    )
