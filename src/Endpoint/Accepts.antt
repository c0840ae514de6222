-- ===== src/Endpoint/Accepts.antt =====
-- The accepts that are outstanding, what an invariant says of them, and how the acceptor's calls
-- change them (src/connection/server.cpp).
use ros2_connect.Prelude.{
  ℕ, zero, suc, ◌+◌, ◌≤◌, ◌≡◌, refl, Bool, true, false, Option, none, some, List, [], ◌∷◌, ◌++◌,
  ◌&&◌, if◌then◌else◌, arith,
}
use ros2_connect.Endpoint.Server.{
  accepted, throwing, failed, canceled, Handler, accept, stop_connection, ListenError, resolving,
  opening, setting, binding, listening, Point, outer, inner, start, sleeping, checked, accepting,
  running, handling, returned, lost, restarting, ended, Stop, uncalled, flagged, halted, deaf,
  cleared, complete, Server, cancel, close, handle_error, open_acceptor, start_listening,
  async_accept,
}

-- The handlers that can start another accept: those of an accept that was not canceled.
unfoldable pub active : List Handler → ℕ
active [] = 0
active (accept (accepted c b) ∷ hs) = suc (active hs)
active (accept (throwing c) ∷ hs) = suc (active hs)
active (accept failed ∷ hs) = suc (active hs)
active (accept canceled ∷ hs) = active hs
active (stop_connection c ∷ hs) = active hs

-- The accepts that wait, and those that ended and whose handlers have not run.
abbrev pub outstanding : Server → ℕ
outstanding s = s.accepts + active s.handlers

-- How many there may be, by the place of the thread.
unfoldable pub allowed : Point → Bool → ℕ
allowed running b = 1
allowed (handling canceled) b = 1
allowed (handling failed) b = 0
allowed (handling (throwing c)) b = 0
allowed (handling (accepted c ok)) b = 0
allowed returned b = if b then 1 else 0
allowed ended b = 1
allowed outer b = 0
allowed inner b = 0
allowed start b = 0
allowed sleeping b = 0
allowed checked b = 0
allowed accepting b = 0
allowed lost b = 0
allowed restarting b = 0

-- The places from where the thread comes back to the I/O context without a restart of it.
unfoldable pub is_live : Point → Bool
is_live outer = true
is_live inner = true
is_live start = true
is_live sleeping = true
is_live checked = true
is_live accepting = true
is_live running = true
is_live (handling r) = true
is_live returned = false
is_live lost = false
is_live restarting = false
is_live ended = false

unfoldable pub is_called : Stop → Bool
is_called uncalled = false
is_called flagged = true
is_called halted = true
is_called deaf = true
is_called cleared = true
is_called complete = true

pub record IsSound (s : Server) : Type 0 where
  pub bound : outstanding s ≤ allowed s.thread s.stopping
  pub flag : s.stopping ≡ is_called s.stop
  pub halt : (is_live s.thread && s.ioc_stopped) ≡ true → s.stopping ≡ true

-- The second server differs in its acceptor, and has no more accepts.
pub record IsBelow (s t : Server) : Type 0 where
  pub stopping : t.stopping ≡ s.stopping
  pub stop : t.stop ≡ s.stop
  pub ioc_stopped : t.ioc_stopped ≡ s.ioc_stopped
  pub accepts : outstanding t ≤ outstanding s

pub active-append : (hs gs : List Handler) → active (hs ++ gs) ≡ active hs + active gs
unfolding active
active-append [] gs = omega arith
active-append (accept (accepted c b) ∷ hs) gs = omega (arith, active-append hs gs)
active-append (accept (throwing c) ∷ hs) gs = omega (arith, active-append hs gs)
active-append (accept failed ∷ hs) gs = omega (arith, active-append hs gs)
active-append (accept canceled ∷ hs) gs = active-append hs gs
active-append (stop_connection c ∷ hs) gs = active-append hs gs

active-cancel : (n : ℕ) → active (cancel n) ≡ 0
unfolding active cancel
active-cancel zero = refl
active-cancel (suc n) = active-cancel n

close-outstanding : (s : Server) → outstanding (close s) ≡ active s.handlers
unfolding close
close-outstanding s =
    omega (arith, active-append s.handlers (cancel s.accepts), active-cancel s.accepts)

self-IsBelow : (s : Server) → IsBelow s s
self-IsBelow s = record { stopping = refl; stop = refl; ioc_stopped = refl; accepts = omega arith }

pub close-IsBelow : (s : Server) → IsBelow s (close s)
unfolding close
close-IsBelow s = record {
  stopping = refl;
  stop = refl;
  ioc_stopped = refl;
  accepts = omega (arith, close-outstanding s);
}

either : (s x y : Server) (b : Bool) → IsBelow s x → IsBelow s y → IsBelow s (if b then x else y)
either s x y true h k = h
either s x y false h k = k

handle_error-IsBelow : (s : Server) → IsBelow s (handle_error s).1
unfolding handle_error
handle_error-IsBelow s = either s (close s) s s.is_open (close-IsBelow s) (self-IsBelow s)

open_acceptor-IsBelow : (e : Option ListenError) (s : Server) → IsBelow s (open_acceptor e s).1
unfolding open_acceptor
open_acceptor-IsBelow none s = record {
  stopping = refl;
  stop = refl;
  ioc_stopped = refl;
  accepts = omega arith;
}
open_acceptor-IsBelow (some e) s = opened (handle_error-IsBelow (record s { is_open = true }))
  where
    opened :
        IsBelow (record s { is_open = true }) (handle_error (record s { is_open = true })).1
        → IsBelow s (handle_error (record s { is_open = true })).1
    opened b = record {
      stopping = b.stopping;
      stop = b.stop;
      ioc_stopped = b.ioc_stopped;
      accepts = b.accepts;
    }

tested :
    (s : Server) (x y : Bool × Server) (b : Bool)
    → IsBelow s x.1
    → IsBelow s y.1
    → IsBelow s (if b then x else y).1
tested s x y true h k = h
tested s x y false h k = k

tested-IsBelow :
    (e : Option ListenError) (s : Server)
    → IsBelow s (if s.is_open then handle_error s else open_acceptor e s).1
tested-IsBelow e s =
    tested s (handle_error s) (open_acceptor e s) s.is_open (handle_error-IsBelow s)
      (open_acceptor-IsBelow e s)

pub start_listening-IsBelow :
    (e : Option ListenError) (s : Server) → IsBelow s (start_listening e s).1
unfolding start_listening
start_listening-IsBelow (some resolving) s = handle_error-IsBelow s
start_listening-IsBelow (some opening) s = handle_error-IsBelow s
start_listening-IsBelow (some setting) s = tested-IsBelow (some setting) s
start_listening-IsBelow (some binding) s = tested-IsBelow (some binding) s
start_listening-IsBelow (some listening) s = tested-IsBelow (some listening) s
start_listening-IsBelow none s = tested-IsBelow none s

-- The second server has one more accept, or the failure of one.
pub record IsNext (s t : Server) : Type 0 where
  pub stopping : t.stopping ≡ s.stopping
  pub stop : t.stop ≡ s.stop
  pub ioc_stopped : t.ioc_stopped ≡ s.ioc_stopped
  pub thread : t.thread ≡ s.thread
  pub accepts : outstanding t ≡ suc (outstanding s)

pub async_accept-IsNext : (s : Server) → IsNext s (async_accept s)
unfolding async_accept
async_accept-IsNext s = chosen s.is_open
  where
    chosen :
        (b : Bool)
        → IsNext s (
            if b
            then record s { accepts = suc s.accepts }
            else record s { handlers = s.handlers ++ accept failed ∷ [] })
    chosen true = record {
      stopping = refl;
      stop = refl;
      ioc_stopped = refl;
      thread = refl;
      accepts = omega arith;
    }
    chosen false = record {
      stopping = refl;
      stop = refl;
      ioc_stopped = refl;
      thread = refl;
      accepts = unfold active in omega (arith, active-append s.handlers (accept failed ∷ []));
    }
