-- ===== src/Plugins/Calls.antt =====
-- A service call from one side to the other and back: include/connect/service/serviceServer.hpp and
-- serviceClient.hpp over the bytes that `send` passes to the connection.
use ros2_connect.Prelude.{
  ℕ, ◌<◌, ◌≡◌, refl, ap, ◌∙◌, Bool, true, false, not, ◌||◌, none, some, List, [], ◌∷◌, ◌++◌, length,
  ◌==◌, ==_self, if◌then◌else◌, lookup, bytes_key, ◌>>=◌, ℤ,
}
use ros2_connect.Message.Codes.{
  Compression, ServiceActionOpCode, service_to_client, service_to_server,
}
use ros2_connect.Message.Codec.{Codec, CodecLaws}
use ros2_connect.Message.ServiceAction.{ServiceActionMessage, get_gid_string, get_data}
use ros2_connect.Message.Base.{service_action, try_decompress}
use ros2_connect.Message.ServiceFrames.{send_bytes, received, Carried}
use ros2_connect.Message.ServiceTransport.{IsCopied, Carried-send_bytes}
use ros2_connect.Plugins.Handles.{
  Plugin, Effect, sent, request_sent, request_cancelled, goal_sent, goal_cancelled, goal_aborted,
  goal_canceled, goal_succeeded, goal_feedback, modify,
}
use ros2_connect.Plugins.Answers.{asked, asked_lem, asked-lookup}
use ros2_connect.Plugins.ServiceServer.{
  Progress, returned, send_request, wake_request, finish_request, accept_response, is_present,
}
use ros2_connect.Plugins.ServiceServer
use ros2_connect.Plugins.ServiceClient.{
  Client, request_handle, step_thread, execute_request, execute_message, resume, send_and_done,
}
use ros2_connect.Plugins.ServiceClient
use ros2_connect.Plugins.Requesting.{
  serve, finish, requests, response_data, IsRestored, restored, is_op, not_wrong, requesting,
  serve-requesting,
}

-- The waiting call, once the response has been put into its handle.
handle-responded :
    (m : ServiceActionMessage) (gid : List ℕ) (h : ℕ) (p : Plugin)
    → m.service_action_op_code ≡ service_to_server
    → get_gid_string m ≡ gid ++ 0 ∷ []
    → lookup (gid ++ 0 ∷ []) p.handles ≡ some h
    → ServiceServer.handle m p ≡ modify h (ServiceServer.respond m) p
unfolding ServiceServer.handle
handle-responded m gid h p o g found =
    rw (is_op service_to_server m o, ap (λ k. lookup k p.handles) g ∙ found) refl

-- The plugin with the answer.
abbrev answered : ServiceActionMessage → ℕ → Plugin → Plugin
answered d h p = modify h (λ o. record o { goal_response = some d; handling_goal = false }) p

reached :
    {A : Type 0} (a b : Bool) (x y z : A)
    → a ≡ false
    → b ≡ false
    → (if a then x else if b then y else z) ≡ z
reached a b x y z h k = rw (h, k) refl

accept_response-answered :
    (dynamic_size : Bool) (n h : ℕ) (d : ServiceActionMessage) (p : Plugin)
    → (dynamic_size || length (get_data d) == n) ≡ true
    → accept_response dynamic_size n h (some d) p ≡ (answered d h p, returned (some h))
unfolding accept_response
accept_response-answered dynamic_size n h d p size =
    other _ _ _ (not_wrong dynamic_size (length (get_data d) == n) size)
  where
    other : (a : Bool) (x y : Plugin × Progress) → a ≡ false → (if a then x else y) ≡ y
    other a x y e = rw e refl

wake-answered :
    (codec : Codec) (dynamic_size timed_out : Bool) (n : ℕ) (m d : ServiceActionMessage)
    (gid bytes : List ℕ) (h : ℕ) (p : Plugin)
    → IsRestored codec service_to_server gid bytes m d
    → (dynamic_size || length bytes == n) ≡ true
    → p.stopping ≡ false
    → (p.objects h).goal_response ≡ some m
    → wake_request codec dynamic_size n true timed_out h p ≡ (answered d h p, returned (some h))
wake-answered codec dynamic_size timed_out n m d gid bytes h p v size s e =
    unfold wake_request finish_request in
    reached _ _ _ _ _ present going
    ∙ ap (λ o. finish_request codec dynamic_size n h o p) e
    ∙ ap (λ o. accept_response dynamic_size n h o p) v.restored
    ∙ accept_response-answered dynamic_size n h d p
        (ap (λ b. dynamic_size || length b == n) v.payload ∙ size)
  where
    present : not (is_present (p.objects h).goal_response || (p.stopping || timed_out)) ≡ false
    present = ap (λ o. not (is_present o || (p.stopping || timed_out))) e

    going : (false || p.stopping) ≡ false
    going = s

requests-append : (es fs : List Effect) → requests (es ++ fs) ≡ requests es ++ requests fs
unfolding requests
requests-append [] fs = refl
requests-append (request_sent m h ∷ es) fs = ap (◌∷◌ (get_data m)) (requests-append es fs)
requests-append (sent op bytes gid ∷ es) fs = requests-append es fs
requests-append (request_cancelled id ∷ es) fs = requests-append es fs
requests-append (goal_sent m h ∷ es) fs = requests-append es fs
requests-append (goal_cancelled h ∷ es) fs = requests-append es fs
requests-append (goal_aborted h bytes ∷ es) fs = requests-append es fs
requests-append (goal_canceled h bytes ∷ es) fs = requests-append es fs
requests-append (goal_succeeded h bytes ∷ es) fs = requests-append es fs
requests-append (goal_feedback h bytes ∷ es) fs = requests-append es fs

-- Received bytes as the message of a plugin.
Carried-restored :
    (codec : Codec) (channel : ℕ) (op : ServiceActionOpCode) (gid payload bytes : List ℕ)
    → Carried codec channel op gid payload bytes
    → (m : ServiceActionMessage) × (d : ServiceActionMessage) × (received bytes ≡ some m)
      × IsRestored codec op gid payload m d
Carried-restored codec channel op gid payload bytes (m, e, _, o, g, h) =
    let r =
      restored codec channel op gid payload (try_decompress codec (service_action m)) m o g refl
        h in
    (m, r.0, e, r.1)

-- The client's side: the local service gets the request's data, and the response goes back.
served :
    (codec : Codec) (c : Client) (gid q a bytes : List ℕ) (id : ℤ) (r : Plugin)
    (m d : ServiceActionMessage)
    → received bytes ≡ some m
    → IsRestored codec service_to_client gid q m d
    → (c.dynamic_size || length q == c.expected_size) ≡ true
    → c.wait_for_service ≡ true
    → r.stopping ≡ false
    → lookup (gid ++ 0 ∷ []) r.handles ≡ none
    → c.async_send_request d ≡ some id
    → (serve codec c bytes r ≡ some (requesting m d id r))
      × (requests (requesting m d id r).effects ≡ requests r.effects ++ q ∷ [])
      × ((send_and_done a r.next (requesting m d id r)).effects
          ≡ (requesting m d id r).effects ++ sent service_to_server a gid ∷ [])
served codec c gid q a bytes id r m d e v size wait s free answers = (
  unfold serve in
      ap (λ o. o >>= λ x. some (step_thread codec c r.next (ServiceClient.handle c x r))) e
      ∙ ap some (serve-requesting codec c m d gid q id r v size wait s free answers),
  requests-append r.effects (request_sent d r.next ∷ [])
      ∙ unfold requests in ap (λ b. requests r.effects ++ b ∷ []) v.payload,
  unfold send_and_done in
      ap (λ g. (requesting m d id r).effects ++ sent service_to_server a g ∷ []) own,
)
  where
    own : ((requesting m d id r).objects r.next).gid ≡ gid
    own = rw (==_self r.next) v.gid

-- The server's side: the call returns its handle, with the response's data.
finished :
    (codec : Codec) (dynamic_size timed_out : Bool) (n : ℕ) (k : ℤ) (gid q a bytes : List ℕ)
    (p : Plugin) (m d : ServiceActionMessage)
    → received bytes ≡ some m
    → IsRestored codec service_to_server gid a m d
    → (dynamic_size || length a == n) ≡ true
    → p.stopping ≡ false
    → lookup (gid ++ 0 ∷ []) p.handles ≡ none
    → let t = answered d p.next (modify p.next (ServiceServer.respond m) (asked q gid k p)) in
      (finish codec dynamic_size n timed_out p.next bytes (send_request q gid k p).0
        ≡ some (t, returned (some p.next)))
      × (response_data t p.next ≡ some a)
finished codec dynamic_size timed_out n k gid q a bytes p m d e v size s free = (
  unfold finish in
      ap (λ o. o >>= λ x. some (wake (ServiceServer.handle x (send_request q gid k p).0))) e
      ∙ ap (λ z. some (wake (ServiceServer.handle m z.0))) (asked_lem q gid k p s)
      ∙ ap (λ z. some (wake z))
          (handle-responded m gid p.next (asked q gid k p) v.op_code v.gid_string
            (asked-lookup q gid k p free))
      ∙ ap some (
          wake-answered codec dynamic_size timed_out n m d gid a p.next
            (modify p.next (ServiceServer.respond m) (asked q gid k p)) v size s
            (rw (==_self p.next) refl)),
  rw (==_self p.next) (ap some v.payload),
)
  where
    wake : Plugin → Plugin × Progress
    wake = wake_request codec dynamic_size n true timed_out p.next

-- What both sides do in a call: `s` is the client's plugin behind the request, `t` the server's
-- plugin behind the response.
pub record IsAnswered (codec : Codec) (channel : ℕ) (there back : Compression) (gid q a : List ℕ)
    (c : Client) (k : ℤ) (dynamic_size timed_out : Bool) (n : ℕ) (p r s t : Plugin) : Type 0 where
  pub request_sent :
      (send_request q gid k p).0.effects ≡ p.effects ++ sent service_to_client q gid ∷ []
  pub request_served :
      serve codec c (send_bytes codec channel there service_to_client q gid) r ≡ some s
  pub requested : requests s.effects ≡ requests r.effects ++ q ∷ []
  pub response_sent :
      (send_and_done a r.next s).effects ≡ s.effects ++ sent service_to_server a gid ∷ []
  pub call_finished :
      finish codec dynamic_size n timed_out p.next
        (send_bytes codec channel back service_to_server a gid)
        (send_request q gid k p).0
      ≡ some (t, returned (some p.next))
  pub responded : response_data t p.next ≡ some a

-- Let a service server that is not stopping make a request with a goal id of 1 to 255 bytes that it
-- does not use, and let the service client on the other side not be stopping, not use that goal id,
-- accept the size of the request's data and find its local service. Then the message that the server
-- sends makes the client pass exactly the request's data to the local service, the client sends the
-- data of the local service's response back, and these make the waiting call return its handle with
-- exactly the response's data, if their size is accepted: with a goal id of at most 4 bytes whatever the
-- compression profiles of both sides, and with a longer one for a side that does not compress. LZ4,
-- zlib and memcpy are as they document.
pub call-IsAnswered :
    (codec : Codec) (laws : CodecLaws codec) (channel : ℕ) (there back : Compression) (gid : List ℕ)
    (some_gid : 0 < length gid) (short_gid : length gid < 256) (q a : List ℕ) (c : Client)
    (id k : ℤ) (dynamic_size timed_out : Bool) (n : ℕ) (p r : Plugin)
    → p.stopping ≡ false
    → lookup (gid ++ 0 ∷ []) p.handles ≡ none
    → r.stopping ≡ false
    → lookup (gid ++ 0 ∷ []) r.handles ≡ none
    → (c.dynamic_size || length q == c.expected_size) ≡ true
    → c.wait_for_service ≡ true
    → ((d : ServiceActionMessage) → get_data d ≡ q → c.async_send_request d ≡ some id)
    → (dynamic_size || length a == n) ≡ true
    → IsCopied there gid
    → IsCopied back gid
    → (s : Plugin) × (t : Plugin) × IsAnswered codec channel there back gid q a c k dynamic_size
        timed_out n p r s t
call-IsAnswered codec laws channel there back gid some_gid short_gid q a c id k dynamic_size
      timed_out n p r sp fp sr fr size wait answers expected copied_there copied_back =
    let to = Carried-restored codec channel service_to_client gid q _ (
      Carried-send_bytes codec laws channel service_to_client gid some_gid short_gid q there
        copied_there) in
    let from = Carried-restored codec channel service_to_server gid a _ (
      Carried-send_bytes codec laws channel service_to_server gid some_gid short_gid a back
        copied_back) in
    let x =
      served codec c gid q a _ id r to.0 to.1 to.2 to.3 size wait sr fr
        (answers to.1 to.3.payload) in
    let y =
      finished codec dynamic_size timed_out n k gid q a _ p from.0 from.1 from.2 from.3 expected sp
        fp in
    (
      requesting to.0 to.1 id r,
      answered from.1 p.next (modify p.next (ServiceServer.respond from.0) (asked q gid k p)),
      record {
        request_sent = ap (λ z. z.0.effects) (asked_lem q gid k p sp);
        request_served = x.0;
        requested = x.1;
        response_sent = x.2;
        call_finished = y.0;
        responded = y.1;
      },
    )
