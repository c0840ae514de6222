-- ===== src/Connection/Established.antt =====
-- A connection is set up once, and goes on or asks for its stop
-- (src/websocketConnection/server/websocketServerConnection.cpp and
-- src/websocketConnection/client/websocketClientConnection.hpp).
use ros2_connect.Prelude.{
  ℕ, zero, suc, ◌+◌, ◌≤◌, ◌≡◌, refl, ◌==◌, Bool, true, false, Bool-cases, inl, inr, Option, none,
  some, List, [], ◌∷◌, if◌then◌else◌, ◌>>=◌, arith,
}
use ros2_connect.Connection.Handshake.{
  Accepted, refused, threw, accepted, Received, failed, bytes, Outcome, Running, Event, end_request,
  end_accept, end_read, handler, shut, server_run, client_run, stop_connection, async_read,
  on_exception, settle, go_on, on_request, on_accept, on_read, on_handler, request_ended,
  accept_ended, read_ended, react, outlive, step, run, find_endpoint,
}

-- The operations of the handshake and of reading that are under way.
abbrev pub pending : {S : Type 0} → Running S → ℕ
pending s = s.requests + s.accepts + s.reads

-- At most one such operation is under way. On an open stream one is, or a stop was asked for, and a
-- thread that an exception ended has asked for it. The connection is set up at most once, and before
-- that nothing is read and its state is untouched.
pub record IsSteady {S : Type 0} (before : S) (s : Running S) : Type 0 where
  pub single : pending s ≤ 1
  pub going : s.is_open ≡ true → 1 ≤ pending s + s.stop_requests
  pub ended : s.is_running ≡ false → 1 ≤ s.stop_requests
  pub once : s.requests + s.accepts + s.connections ≤ 1
  pub unread : s.connections ≡ 0 → s.reads ≡ 0
  pub untouched : s.connections ≡ 0 → s.state ≡ before

module _ {S : Type 0} (search : List ℕ → Option (List ℕ)) (on_connected : S → Outcome S)
    (read : List ℕ → S → Option (Outcome S)) (before : S) where
  -- What holds of the state that there is, as long as no message is read behind its end.
  abbrev pub Holds : Option (Running S) → Type 0
  Holds none = Unit
  Holds (some s) = IsSteady before s

  -- A connection that was set up, with nothing under way.
  record IsBetween (s : Running S) : Type 0 where
    pub nothing : pending s ≤ 0
    pub once : s.requests + s.accepts + s.connections ≤ 1
    pub connected : 1 ≤ s.connections
    pub ended : s.is_running ≡ false → 1 ≤ s.stop_requests

  async_read-IsSteady :
      (s : Running S) → IsBetween s → IsSteady before (async_read search on_connected read s)
  unfolding async_read
  async_read-IsSteady s v = chosen s.is_open refl
    where
      chosen :
          (b : Bool)
          → s.is_open ≡ b
          → IsSteady before (if b then record s { reads = suc s.reads } else s)
      chosen true e = record {
        single = omega (arith, v.nothing);
        going = λ x. omega arith;
        ended = v.ended;
        once = v.once;
        unread = λ z. omega (arith, v.connected, z);
        untouched = λ z. absurd (omega (arith, v.connected, z));
      }
      chosen false e = record {
        single = omega (arith, v.nothing);
        going = λ x. ground (arith, e, x);
        ended = v.ended;
        once = v.once;
        unread = λ z. omega (arith, v.connected, z);
        untouched = λ z. absurd (omega (arith, v.connected, z));
      }

  go_on-IsSteady :
      (o : Outcome S) (s : Running S)
      → IsBetween s
      → IsSteady before (go_on search on_connected read o s)
  unfolding go_on on_exception settle stop_connection
  go_on-IsSteady o s v = chosen o.has_thrown
    where
      settled : Running S
      settled = settle search on_connected read o s

      chosen :
          (b : Bool)
          → IsSteady before (
              if b
              then on_exception search on_connected read settled
              else async_read search on_connected read settled)
      chosen true = record {
        single = omega (arith, v.nothing);
        going = λ x. omega arith;
        ended = λ x. omega arith;
        once = v.once;
        unread = λ z. omega (arith, v.connected, z);
        untouched = λ z. absurd (omega (arith, v.connected, z));
      }
      chosen false = async_read-IsSteady settled (record {
        nothing = v.nothing;
        once = v.once;
        connected = v.connected;
        ended = λ x. omega (arith, v.ended x);
      })

  request_ended-IsSteady :
      (bad : Bool) (n : ℕ) (s : Running S)
      → s.requests ≡ n
      → IsSteady before s
      → IsSteady before (request_ended search on_connected read bad n s)
  unfolding request_ended on_request stop_connection
  request_ended-IsSteady bad zero s e v = v
  request_ended-IsSteady true (suc n) s e v = record {
    single = omega (arith, v.single, e);
    going = λ o. omega arith;
    ended = λ o. omega arith;
    once = omega (arith, v.once, e);
    unread = v.unread;
    untouched = v.untouched;
  }
  request_ended-IsSteady false (suc n) s e v = record {
    single = omega (arith, v.single, e);
    going = λ o. omega arith;
    ended = v.ended;
    once = omega (arith, v.once, e);
    unread = v.unread;
    untouched = v.untouched;
  }

  accept_ended-IsSteady :
      (a : Accepted) (n : ℕ) (s : Running S)
      → s.accepts ≡ n
      → IsSteady before s
      → IsSteady before (accept_ended search on_connected read a n s)
  unfolding accept_ended on_accept stop_connection on_exception
  accept_ended-IsSteady a zero s e v = v
  accept_ended-IsSteady refused (suc n) s e v = record {
    single = omega (arith, v.single, e);
    going = λ o. omega arith;
    ended = λ o. omega arith;
    once = omega (arith, v.once, e);
    unread = v.unread;
    untouched = v.untouched;
  }
  accept_ended-IsSteady threw (suc n) s e v = record {
    single = omega (arith, v.single, e);
    going = λ o. omega arith;
    ended = λ o. omega arith;
    once = omega (arith, v.once, e);
    unread = v.unread;
    untouched = v.untouched;
  }
  accept_ended-IsSteady (accepted forwarded address) (suc n) s e v =
      go_on-IsSteady (on_connected s.state)
        (record s {
          accepts = n;
          remote_endpoint = find_endpoint search forwarded address s.remote_endpoint;
          connections = suc s.connections;
        })
        (record {
          nothing = omega (arith, v.single, e);
          once = omega (arith, v.once, e);
          connected = omega arith;
          ended = v.ended;
        })

  connected : (n : ℕ) (s : Running S) → s.reads ≡ suc n → IsSteady before s → 1 ≤ s.connections
  connected n s e v = ground (arith, v.unread, e)

  arrived-Holds :
      (n : ℕ) (s : Running S) (o : Option (Outcome S))
      → s.reads ≡ suc n
      → IsSteady before s
      → Holds (o >>= λ x. some (go_on search on_connected read x (record s { reads = n })))
  arrived-Holds n s none e v = tt
  arrived-Holds n s (some x) e v =
      go_on-IsSteady x (record s { reads = n })
        (record {
          nothing = omega (arith, v.single, e);
          once = v.once;
          connected = connected n s e v;
          ended = v.ended;
        })

  read_ended-Holds :
      (r : Received) (n : ℕ) (s : Running S)
      → s.reads ≡ n
      → IsSteady before s
      → Holds (read_ended search on_connected read r n s)
  unfolding read_ended on_read stop_connection
  read_ended-Holds r zero s e v = v
  read_ended-Holds failed (suc n) s e v = record {
    single = omega (arith, v.single, e);
    going = λ o. omega arith;
    ended = λ o. omega arith;
    once = v.once;
    unread = λ z. omega (arith, connected n s e v, z);
    untouched = v.untouched;
  }
  read_ended-Holds (bytes b) (suc n) s e v = arrived-Holds n s (read b s.state) e v

  on_handler-IsSteady :
      (o : Outcome S) (s : Running S)
      → IsSteady before s
      → IsSteady before (on_handler search on_connected read o s)
  unfolding on_handler settle on_exception stop_connection
  on_handler-IsSteady o s v = chosen (s.connections == 0) o.has_thrown refl
    where
      chosen :
          (a b : Bool)
          → (s.connections == 0) ≡ a
          → IsSteady before (
              if a
              then s
              else (if b
                  then on_exception search on_connected read (settle search on_connected read o s)
                  else settle search on_connected read o s))
      chosen true b e = v
      chosen false true e = record {
        single = v.single;
        going = λ x. omega arith;
        ended = λ x. omega arith;
        once = v.once;
        unread = v.unread;
        untouched = λ z. absurd (ground (arith, e, z));
      }
      chosen false false e = record {
        single = v.single;
        going = λ x. omega (arith, v.going x);
        ended = λ x. omega (arith, v.ended x);
        once = v.once;
        unread = v.unread;
        untouched = λ z. absurd (ground (arith, e, z));
      }

  react-Holds :
      (e : Event S) (s : Running S) → IsSteady before s → Holds (react search on_connected read e s)
  unfolding react
  react-Holds (end_request bad) s v = request_ended-IsSteady bad s.requests s refl v
  react-Holds (end_accept a) s v = accept_ended-IsSteady a s.accepts s refl v
  react-Holds (end_read r) s v = read_ended-Holds r s.reads s refl v
  react-Holds (handler f) s v = on_handler-IsSteady (f s.state) s v
  react-Holds shut s v = record {
    single = v.single;
    going = λ x. ground arith;
    ended = v.ended;
    once = v.once;
    unread = v.unread;
    untouched = v.untouched;
  }

  outlive-Holds :
      (e : Event S) (s : Running S)
      → IsSteady before s
      → Holds (outlive search on_connected read e s)
  unfolding outlive
  outlive-Holds (end_request bad) s v = v
  outlive-Holds (end_accept a) s v = v
  outlive-Holds (end_read r) s v = v
  outlive-Holds (handler f) s v = v
  outlive-Holds shut s v = record {
    single = v.single;
    going = λ x. ground arith;
    ended = v.ended;
    once = v.once;
    unread = v.unread;
    untouched = v.untouched;
  }

  step-Holds :
      (e : Event S) (s : Running S) → IsSteady before s → Holds (step search on_connected read e s)
  step-Holds e s v = elim (Bool-cases s.is_running) [
    | inl h ↦ unfold step in simp h (react-Holds e s v)
    | inr h ↦ unfold step in simp h (outlive-Holds e s v)
  ]

  bind-Holds :
      (es : List (Event S)) (o : Option (Running S))
      → ((s : Running S) → IsSteady before s → Holds (run search on_connected read es s))
      → Holds o
      → Holds (o >>= λ r. run search on_connected read es r)
  bind-Holds es none ih v = tt
  bind-Holds es (some s) ih v = ih s v

  run-Holds :
      (es : List (Event S)) (s : Running S)
      → IsSteady before s
      → Holds (run search on_connected read es s)
  unfolding run
  run-Holds [] s v = v
  run-Holds (e ∷ es) s v =
      bind-Holds es (step search on_connected read e s) (λ r. run-Holds es r) (step-Holds e s v)

  -- After any events on a connection of the server or of the client, from its thread's start on, and
  -- whatever exceptions its functions throw, it was set up at most once, and before that nothing is
  -- read and its state is untouched; at most one operation of the handshake and of reading is under
  -- way, and while the stream is open, one is or a stop was asked for, which a thread that an
  -- exception ended has always done. There is no state to speak of behind a message that is read
  -- behind its end. Writes and timers are handlers that may change the state and ask for a stop at
  -- any time after the setup.
  pub run-IsSteady :
      (es fs : List (Event S))
      → Holds (run search on_connected read es (server_run search on_connected read before))
        × Holds (run search on_connected read fs (client_run search on_connected read before))
  run-IsSteady es fs = (
    run-Holds es (server_run search on_connected read before) (
        unfold server_run in
        record {
          single = omega arith;
          going = λ x. omega arith;
          ended = λ x. ground arith;
          once = omega arith;
          unread = λ z. refl;
          untouched = λ z. refl;
        }),
    run-Holds fs (client_run search on_connected read before) (
        unfold client_run in
        record {
          single = omega arith;
          going = λ x. omega arith;
          ended = λ x. ground arith;
          once = omega arith;
          unread = λ z. refl;
          untouched = λ z. refl;
        }),
  )
