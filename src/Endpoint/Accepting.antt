-- ===== src/Endpoint/Accepting.antt =====
-- The server accepts one connection at a time (src/connection/server.cpp).
use ros2_connect.Prelude.{
  ℕ, zero, suc, ◌+◌, ◌≤◌, ◌≡◌, refl, sym, ap, ◌∙◌, Bool, true, false, Option, List, [], ◌∷◌, ◌&&◌,
  if◌then◌else◌, arith,
}
use ros2_connect.Connection.Registry.{start_connection}
use ros2_connect.Endpoint.Server.{
  Accept, accepted, throwing, failed, canceled, Handler, accept, stop_connection, ListenError,
  Point, outer, inner, start, sleeping, checked, accepting, running, handling, returned, lost,
  restarting, ended, Stop, uncalled, flagged, halted, deaf, cleared, complete, Server, close,
  open_acceptor, start_listening, stop_listening, async_accept, on_accept, idle, handle_next,
  listened, on_before_start_thread, step_thread, step_stop, end_accept, Event, run_thread,
  call_stop, end, post, step, run, started,
}
use ros2_connect.Endpoint.Accepts.{
  active, outstanding, allowed, is_live, is_called, IsSound, IsBelow, active-append, close-IsBelow,
  start_listening-IsBelow, async_accept-IsNext,
}

at_place : {p q : Point} (n : ℕ) (b : Bool) → p ≡ q → n ≤ allowed p b → n ≤ allowed q b
at_place n b e h = rw⁻¹ e h

live_place :
    {p q : Point} {X : Type 0} (i : Bool)
    → p ≡ q
    → ((is_live p && i) ≡ true → X)
    → (is_live q && i) ≡ true
    → X
live_place i e h l = h (rw e l)

async_accept-IsSound :
    (s : Server)
    → s.thread ≡ running
    → outstanding s ≤ 0
    → s.stopping ≡ is_called s.stop
    → (s.ioc_stopped ≡ true → s.stopping ≡ true)
    → IsSound (async_accept s)
async_accept-IsSound s at none_left flag halt =
    let n = async_accept-IsNext s in
    record {
      bound = rw (n.thread ∙ at) (unfold allowed in omega (arith, n.accepts, none_left));
      flag = n.stopping ∙ flag ∙ sym (ap is_called n.stop);
      halt = rw (n.thread ∙ at) (unfold is_live in rw (n.stopping, n.ioc_stopped) halt);
    }

on_accept-IsSound :
    (r : Accept) (s : Server) → s.thread ≡ handling r → IsSound s → IsSound (on_accept r s)
unfolding on_accept
on_accept-IsSound failed s at v =
    async_accept-IsSound (record s { thread = running }) refl
      (unfold allowed in at_place (outstanding s) s.stopping at v.bound) v.flag
      (unfold is_live in live_place s.ioc_stopped at v.halt)
on_accept-IsSound canceled s at v = record {
  bound = unfold allowed in at_place (outstanding s) s.stopping at v.bound;
  flag = v.flag;
  halt = unfold is_live in live_place s.ioc_stopped at v.halt;
}
on_accept-IsSound (throwing c) s at v = record {
  bound = unfold allowed in at_place (outstanding s) s.stopping at v.bound;
  flag = v.flag;
  halt = unfold is_live in λ e. ground arith;
}
on_accept-IsSound (accepted c ok) s at v =
    async_accept-IsSound
      (record s {
        thread = running;
        connection_manager = start_connection c ok s.connection_manager;
      })
      refl (unfold allowed in at_place (outstanding s) s.stopping at v.bound) v.flag
      (unfold is_live in live_place s.ioc_stopped at v.halt)

idle-IsSound :
    (n : ℕ) (s : Server) → s.handlers ≡ [] → s.accepts ≡ n → IsSound s → IsSound (idle n s)
unfolding idle active allowed is_live
idle-IsSound zero s eh en v = record {
  bound = omega (arith, ap active eh, en);
  flag = v.flag;
  halt = λ e. ground arith;
}
idle-IsSound (suc n) s eh en v = v

-- Of the one accept nothing is left behind the handler that is taken.
taken :
    (n : ℕ) (r : Accept) (hs : List Handler) (b : Bool)
    → n + active (accept r ∷ hs) ≤ 1
    → n + active hs ≤ allowed (handling r) b
unfolding active allowed
taken n (accepted c ok) hs b h = omega (arith, h)
taken n (throwing c) hs b h = omega (arith, h)
taken n failed hs b h = omega (arith, h)
taken n canceled hs b h = h

dropped : (r : Accept) (hs : List Handler) → active hs ≤ active (accept r ∷ hs)
unfolding active
dropped (accepted c ok) hs = omega arith
dropped (throwing c) hs = omega arith
dropped failed hs = omega arith
dropped canceled hs = omega arith

handle_next-IsSound :
    (hs : List Handler) (s : Server)
    → s.handlers ≡ hs
    → s.thread ≡ running
    → s.ioc_stopped ≡ false
    → IsSound s
    → IsSound (handle_next hs s)
unfolding handle_next
handle_next-IsSound [] s eh at off v = idle-IsSound s.accepts s eh refl v
handle_next-IsSound (accept r ∷ hs) s eh at off v = chosen s.is_open
  where
    one : outstanding s ≤ 1
    one = unfold allowed in at_place (outstanding s) s.stopping at v.bound

    chosen :
        (b : Bool)
        → IsSound (record s { handlers = hs; thread = if b then handling r else running })
    chosen true = record {
      bound = taken s.accepts r hs s.stopping (omega (arith, ap active eh, one));
      flag = v.flag;
      halt = unfold is_live in live_place s.ioc_stopped at v.halt;
    }
    chosen false = record {
      bound = unfold allowed in omega (arith, ap active eh, one, dropped r hs);
      flag = v.flag;
      halt = unfold is_live in live_place s.ioc_stopped at v.halt;
    }
handle_next-IsSound (stop_connection c ∷ hs) s eh at off v = record {
  bound = unfold active in omega (arith, ap active eh, v.bound);
  flag = v.flag;
  halt = v.halt;
}

-- The thread goes on to a place that allows as many accepts.
goes :
    (p q : Point) (s : Server)
    → s.thread ≡ p
    → ((b : Bool) → allowed p b ≤ allowed q b)
    → (is_live q ≡ true → is_live p ≡ true)
    → IsSound s
    → IsSound (record s { thread = q })
goes p q s at h live v = record {
  bound = omega (arith, at_place (outstanding s) s.stopping at v.bound, h s.stopping);
  flag = v.flag;
  halt = λ l. v.halt (both (is_live q) s.ioc_stopped (λ e. ap is_live at ∙ live e) l);
}
  where
    both : (b i : Bool) {c : Bool} → (b ≡ true → c ≡ true) → (b && i) ≡ true → (c && i) ≡ true
    both b i h e = ground (arith, h)

goes_either :
    (x y : Point) (s : Server) (b : Bool)
    → IsSound (record s { thread = x })
    → IsSound (record s { thread = y })
    → IsSound (record s { thread = if b then x else y })
goes_either x y s true h k = h
goes_either x y s false h k = k

listened-IsSound :
    (r : Bool × Server) (s : Server)
    → s.thread ≡ start
    → IsBelow s r.1
    → IsSound s
    → IsSound (listened r)
unfolding listened is_live allowed
listened-IsSound (ok, t) s at b v =
    goes_either checked sleeping t ok (record { bound = nothing; flag = flag; halt = halt })
      (record { bound = nothing; flag = flag; halt = halt })
  where
    nothing : outstanding t ≤ 0
    nothing = omega (arith, b.accepts, at_place (outstanding s) s.stopping at v.bound)

    flag : t.stopping ≡ is_called t.stop
    flag = b.stopping ∙ v.flag ∙ sym (ap is_called b.stop)

    halt : t.ioc_stopped ≡ true → t.stopping ≡ true
    halt l = b.stopping ∙ live_place s.ioc_stopped at v.halt (sym b.ioc_stopped ∙ l)

-- The thread leaves a stopped I/O context, and ends if `stopThread` was called.
awake-IsSound :
    (b : Bool) (s : Server)
    → s.ioc_stopped ≡ b
    → s.thread ≡ running
    → IsSound s
    → IsSound (if b then record s { thread = returned } else handle_next s.handlers s)
unfolding is_live allowed
awake-IsSound false s e at v = handle_next-IsSound s.handlers s refl at e v
awake-IsSound true s e at v =
    let stopped : s.stopping ≡ true = live_place s.ioc_stopped at v.halt e in
    let one : outstanding s ≤ 1 = at_place (outstanding s) s.stopping at v.bound in
    record { bound = ground (arith, stopped, one); flag = v.flag; halt = λ l. stopped }

left-IsSound :
    (b : Bool) (s : Server)
    → s.stopping ≡ b
    → s.thread ≡ returned
    → IsSound s
    → IsSound (record s { thread = if b then ended else lost })
unfolding is_live allowed
left-IsSound true s e at v =
    let some_left = at_place (outstanding s) s.stopping at v.bound in
    record { bound = ground (arith, some_left); flag = v.flag; halt = λ l. e }
left-IsSound false s e at v =
    let some_left = at_place (outstanding s) s.stopping at v.bound in
    record { bound = ground (arith, some_left, e); flag = v.flag; halt = λ l. ground arith }

close-IsSound : (s : Server) → IsSound s → IsSound (close s)
unfolding close
close-IsSound s v = record {
  bound = omega (arith, v.bound, (close-IsBelow s).accepts);
  flag = v.flag;
  halt = v.halt;
}

-- The thread's step.
step_thread-IsSound :
    (e : Option ListenError) (p : Point) (s : Server)
    → s.thread ≡ p
    → IsSound s
    → IsSound (step_thread e p s)
unfolding step_thread allowed is_live
step_thread-IsSound e outer s at v =
    goes_either ended (if s.is_listening then accepting else inner) s s.stopping
      (goes outer ended s at (λ b. omega arith) (λ l. refl) v)
      (goes_either accepting inner s s.is_listening
        (goes outer accepting s at (λ b. omega arith) (λ l. refl) v)
        (goes outer inner s at (λ b. omega arith) (λ l. refl) v))
step_thread-IsSound e inner s at v =
    goes_either checked start s s.stopping
      (goes inner checked s at (λ b. omega arith) (λ l. refl) v)
      (goes inner start s at (λ b. omega arith) (λ l. refl) v)
step_thread-IsSound e start s at v =
    listened-IsSound (start_listening e s) s at (start_listening-IsBelow e s) v
step_thread-IsSound e sleeping s at v = goes sleeping inner s at (λ b. omega arith) (λ l. refl) v
step_thread-IsSound e checked s at v =
    goes_either ended accepting s s.stopping
      (goes checked ended s at (λ b. omega arith) (λ l. refl) v)
      (goes checked accepting s at (λ b. omega arith) (λ l. refl) v)
step_thread-IsSound e accepting s at v =
    async_accept-IsSound (record s { thread = running }) refl
      (unfold allowed in at_place (outstanding s) s.stopping at v.bound) v.flag
      (unfold is_live in live_place s.ioc_stopped at v.halt)
step_thread-IsSound e running s at v = awake-IsSound s.ioc_stopped s refl at v
step_thread-IsSound e (handling r) s at v = on_accept-IsSound r s at v
step_thread-IsSound e returned s at v = left-IsSound s.stopping s refl at v
step_thread-IsSound e lost s at v =
    unfold stop_listening in
    close-IsSound (record s { is_listening = false; thread = restarting })
      (goes lost restarting (record s { is_listening = false }) at (λ b. omega arith)
        (λ l. ground arith) (record { bound = v.bound; flag = v.flag; halt = v.halt }))
step_thread-IsSound e restarting s at v = record {
  bound = at_place (outstanding s) s.stopping at v.bound;
  flag = v.flag;
  halt = λ l. ground arith;
}
step_thread-IsSound e ended s at v = v

-- A step of `stopThread`.
allowed_more : (p : Point) (b : Bool) → allowed p b ≤ allowed p true
unfolding allowed
allowed_more p b = ground arith

step_stop-IsSound : (q : Stop) (s : Server) → s.stop ≡ q → IsSound s → IsSound (step_stop q s)
unfolding step_stop is_called
step_stop-IsSound uncalled s e v = record {
  bound = omega (arith, v.bound, allowed_more s.thread s.stopping);
  flag = refl;
  halt = λ l. refl;
}
step_stop-IsSound flagged s e v = record {
  bound = v.bound;
  flag = v.flag ∙ ap is_called e;
  halt = λ l. v.flag ∙ ap is_called e;
}
step_stop-IsSound halted s e v =
    unfold stop_listening in
    close-IsSound (record s { is_listening = false; stop = deaf })
      (record { bound = v.bound; flag = v.flag ∙ ap is_called e; halt = v.halt })
step_stop-IsSound deaf s e v = record {
  bound = v.bound;
  flag = v.flag ∙ ap is_called e;
  halt = v.halt;
}
step_stop-IsSound cleared s e v = record {
  bound = v.bound;
  flag = v.flag ∙ ap is_called e;
  halt = v.halt;
}
step_stop-IsSound complete s e v = v

end_accept-IsSound :
    (r : Accept) (n : ℕ) (s : Server) → s.accepts ≡ n → IsSound s → IsSound (end_accept r n s)
unfolding end_accept active
end_accept-IsSound r zero s e v = v
end_accept-IsSound r (suc n) s e v = record {
  bound = omega (arith, v.bound, e, active-append s.handlers (accept r ∷ []), single r);
  flag = v.flag;
  halt = v.halt;
}
  where
    single : (r : Accept) → active (accept r ∷ []) ≤ 1
    single (accepted c ok) = omega arith
    single (throwing c) = omega arith
    single failed = omega arith
    single canceled = omega arith

step-IsSound : (e : Event) (s : Server) → IsSound s → IsSound (step e s)
unfolding step
step-IsSound (run_thread e) s v = step_thread-IsSound e s.thread s refl v
step-IsSound call_stop s v = step_stop-IsSound s.stop s refl v
step-IsSound (end r) s v = end_accept-IsSound r s.accepts s refl v
step-IsSound (post c) s v = record {
  bound =
      unfold active in omega (arith, v.bound, active-append s.handlers (stop_connection c ∷ []));
  flag = v.flag;
  halt = v.halt;
}

pub run-IsSound : (es : List Event) (s : Server) → IsSound s → IsSound (run es s)
unfolding run
run-IsSound [] s v = v
run-IsSound (e ∷ es) s v = run-IsSound es (step e s) (step-IsSound e s v)

pub started-IsSound : IsSound started
unfolding started on_before_start_thread start_listening open_acceptor active allowed is_called
started-IsSound = record { bound = omega arith; flag = refl; halt = λ l. ground arith }

allowed_one : (p : Point) (b : Bool) → allowed p b ≤ 1
unfolding allowed
allowed_one p b = ground arith

-- Whatever happens to a started server, whose listening can also fail at any call, whose accepts
-- can end in any way, and whose thread goes on in any order with the steps of a call of
-- `stopThread`: at most one accept waits or has a handler to come that can start another one, and
-- none does when the thread starts an accept from its loop.
pub run-outstanding :
    (es : List Event)
    → (outstanding (run es started) ≤ 1)
      × ((run es started).thread ≡ accepting → outstanding (run es started) ≡ 0)
run-outstanding es =
    let s = run es started in
    let v = run-IsSound es started started-IsSound in
    (
      omega (arith, v.bound, allowed_one s.thread s.stopping),
      λ at. (unfold allowed in omega (arith, at_place (outstanding s) s.stopping at v.bound)),
    )
