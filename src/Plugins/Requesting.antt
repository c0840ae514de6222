-- ===== src/Plugins/Requesting.antt =====
-- A request in the plugin of the other side: include/connect/service/serviceClient.hpp on the bytes
-- that arrive, up to the call of the local service, and what the waiting call makes of a response.
use ros2_connect.Prelude.{
  ℕ, ◌≡◌, refl, ap, ◌∙◌, Bool, true, false, not, ◌&&◌, ◌||◌, Option, none, some, List, [], ◌∷◌,
  ◌++◌, length, ◌==◌, ==_iff, ==_self, if◌then◌else◌, lookup, bytes_key, ◌>>=◌, arith, ℤ,
}
use ros2_connect.Message.Codes.{ServiceActionOpCode, service_to_client, service_action_value}
use ros2_connect.Message.Codec.{Codec}
use ros2_connect.Message.ServiceAction.{ServiceActionMessage, get_gid, get_gid_string, get_data}
use ros2_connect.Message.Base.{MessageBase, rcl, vector, service_action, try_decompress}
use ros2_connect.Message.ServiceFrames.{received, Delivered}
use ros2_connect.Plugins.Handles.{
  Plugin, Effect, sent, request_sent, request_cancelled, goal_sent, goal_cancelled, goal_aborted,
  goal_canceled, goal_succeeded, goal_feedback, request, requested, modify, perform, store_handle,
  is_service_action_op_code, decompressed,
}
use ros2_connect.Plugins.ServiceServer.{
  Progress, returned, send_request, wake_request, finish_request, accept_response, is_present,
}
use ros2_connect.Plugins.ServiceServer
use ros2_connect.Plugins.ServiceClient.{
  Client, request_handle, step_thread, execute_request, execute_message, resume, send_and_done,
}
use ros2_connect.Plugins.ServiceClient

-- What a service client does with received bytes, with the thread of the request's handle up to its
-- wait.
unfoldable pub serve : Codec → Client → List ℕ → Plugin → Option Plugin
unfolding ServiceClient.handle step_thread
serve codec c bytes r =
    received bytes >>= λ m. some (step_thread codec c r.next (ServiceClient.handle c m r))

-- What a service server makes of received bytes, and then the call that waits on a handle.
unfoldable pub finish : Codec → Bool → ℕ → Bool → ℕ → List ℕ → Plugin → Option (Plugin × Progress)
unfolding ServiceServer.handle wake_request
finish codec dynamic_size expected_size timed_out h bytes p = received bytes >>= λ m.
    some (wake_request codec dynamic_size expected_size true timed_out h (ServiceServer.handle m p))

-- The data of the requests that a plugin made to its local service.
unfoldable pub requests : List Effect → List (List ℕ)
unfolding get_data
requests [] = []
requests (request_sent m h ∷ es) = get_data m ∷ requests es
requests (sent op bytes gid ∷ es) = requests es
requests (request_cancelled id ∷ es) = requests es
requests (goal_sent m h ∷ es) = requests es
requests (goal_cancelled h ∷ es) = requests es
requests (goal_aborted h bytes ∷ es) = requests es
requests (goal_canceled h bytes ∷ es) = requests es
requests (goal_succeeded h bytes ∷ es) = requests es
requests (goal_feedback h bytes ∷ es) = requests es

-- The data of the response in a handle.
abbrev pub data_of : Option ServiceActionMessage → Option (List ℕ)
data_of none = none
data_of (some m) = some (get_data m)

abbrev pub response_data : Plugin → ℕ → Option (List ℕ)
response_data p h = data_of (p.objects h).goal_response

-- The message of a plugin, decompressed.
pub record IsRestored (codec : Codec) (op : ServiceActionOpCode) (id bytes : List ℕ)
    (m d : ServiceActionMessage) : Type 0 where
  pub op_code : m.service_action_op_code ≡ op
  pub gid_string : get_gid_string m ≡ id ++ 0 ∷ []
  pub restored : decompressed codec m ≡ some d
  pub payload : get_data d ≡ bytes
  pub gid : get_gid m ≡ id

pub restored :
    (codec : Codec) (channel : ℕ) (op : ServiceActionOpCode) (gid payload : List ℕ)
    (o : Option MessageBase) (m : ServiceActionMessage)
    → m.service_action_op_code ≡ op
    → get_gid m ≡ gid
    → try_decompress codec (service_action m) ≡ o
    → Delivered channel op gid payload o
    → (d : ServiceActionMessage) × IsRestored codec op gid payload m d
restored codec channel op gid payload none m eo eg e h = absurd h
restored codec channel op gid payload (some (rcl d)) m eo eg e h = absurd h
restored codec channel op gid payload (some (vector d)) m eo eg e h = absurd h
restored codec channel op gid payload (some (service_action d)) m eo eg e h = (
  d,
  record {
    op_code = eo;
    gid_string = unfold get_gid_string in ap (λ g. g ++ 0 ∷ []) eg;
    restored = unfold decompressed in rw e refl;
    payload = h.3;
    gid = eg;
  },
)

pub is_op :
    (op : ServiceActionOpCode) (m : ServiceActionMessage)
    → m.service_action_op_code ≡ op
    → is_service_action_op_code op m ≡ true
is_op op m e = (==_iff _ _).1 (ap service_action_value e)

pub not_wrong : (a b : Bool) → (a || b) ≡ true → (not a && not b) ≡ false
not_wrong a b h = ground (arith, h)

passed :
    (a b c : Bool) (x y z w : Plugin)
    → a ≡ false
    → b ≡ true
    → c ≡ false
    → (if a then x else if not b then y else if c then z else w) ≡ w
passed a b c x y z w h k l = rw (h, k, l) refl

-- The plugin whose handle waits for the local service.
abbrev pub requesting : ServiceActionMessage → ServiceActionMessage → ℤ → Plugin → Plugin
requesting m d id r =
    modify r.next (λ o. record o { thread = requested id })
      (perform (request_sent d r.next) (store_handle (request_handle m) r))

execute_request-requesting :
    (codec : Codec) (c : Client) (m d : ServiceActionMessage) (id : ℤ) (r : Plugin)
    → decompressed codec m ≡ some d
    → (c.dynamic_size || length (get_data d) == c.expected_size) ≡ true
    → c.wait_for_service ≡ true
    → r.stopping ≡ false
    → c.async_send_request d ≡ some id
    → execute_request codec c m r.next (store_handle (request_handle m) r) ≡ requesting m d id r
unfolding execute_request
execute_request-requesting codec c m d id r e size wait s a =
    rw (execute_request, e) (unfold execute_message in tests ∙ answered)
  where
    p : Plugin
    p = store_handle (request_handle m) r

    requested_by : Option ℤ → Plugin
    requested_by o = elim o [
      | none ↦ ServiceClient.fail c (get_gid d) r.next p
      | some n ↦
          modify r.next (λ o. record o { thread = requested n }) (perform (request_sent d r.next) p)
    ]

    tests :
        (if not c.dynamic_size && not (length (get_data d) == c.expected_size)
          then ServiceClient.fail c (get_gid d) r.next p
          else if not c.wait_for_service
          then ServiceClient.fail c (get_gid d) r.next p
          else if r.stopping
          then ServiceClient.leave r.next p
          else requested_by (c.async_send_request d))
        ≡ requested_by (c.async_send_request d)
    tests =
        passed _ c.wait_for_service r.stopping _ _ _ _
          (not_wrong c.dynamic_size (length (get_data d) == c.expected_size) size) wait s

    answered : requested_by (c.async_send_request d) ≡ requesting m d id r
    answered = ap requested_by a

handle-stored :
    (c : Client) (m : ServiceActionMessage) (gid : List ℕ) (r : Plugin)
    → m.service_action_op_code ≡ service_to_client
    → get_gid_string m ≡ gid ++ 0 ∷ []
    → r.stopping ≡ false
    → lookup (gid ++ 0 ∷ []) r.handles ≡ none
    → ServiceClient.handle c m r ≡ store_handle (request_handle m) r
unfolding ServiceClient.handle
handle-stored c m gid r o g s free =
    rw (is_op service_to_client m o, ap (λ k. lookup k r.handles) g ∙ free, s) refl

pub serve-requesting :
    (codec : Codec) (c : Client) (m d : ServiceActionMessage) (gid bytes : List ℕ) (id : ℤ)
    (r : Plugin)
    → IsRestored codec service_to_client gid bytes m d
    → (c.dynamic_size || length bytes == c.expected_size) ≡ true
    → c.wait_for_service ≡ true
    → r.stopping ≡ false
    → lookup (gid ++ 0 ∷ []) r.handles ≡ none
    → c.async_send_request d ≡ some id
    → step_thread codec c r.next (ServiceClient.handle c m r) ≡ requesting m d id r
serve-requesting codec c m d gid bytes id r v size wait s free a =
    ap (step_thread codec c r.next) (handle-stored c m gid r v.op_code v.gid_string s free)
    ∙ started
    ∙ execute_request-requesting codec c m d id r v.restored
        (ap (λ b. c.dynamic_size || length b == c.expected_size) v.payload ∙ size) wait s a
  where
    started :
        step_thread codec c r.next (store_handle (request_handle m) r)
        ≡ execute_request codec c m r.next (store_handle (request_handle m) r)
    started =
        let p = store_handle (request_handle m) r in
        let e : (p.objects r.next).thread ≡ request m = rw (==_self r.next) refl in
        unfold step_thread resume in ap (λ t. resume codec c r.next p t) e
