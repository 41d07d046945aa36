-- ===== src/Run/Examples.antt =====
-- The calls of a client on a fresh engine.
use kcp_mux.Types.{ConnState, StreamState, ClosePhase}
use kcp_mux.Timer.{deadline_after}
use kcp_mux.Config.{conn_config_init, stream_config_init}
use kcp_mux.ConnUpdate.{conn_update}
use kcp_mux.ConnLife.{blank_conn}
use kcp_mux.Run.Overdue.{AreWords, IsOverdue, Outcome, conn_update_decides}
use kcp_mux.Run.Closing
use kcp_mux.Run.Closing.{IsWaitedOut, for_reads, stream_update_decides}
use kcp_mux.StreamUpdate.{stream_update}
use kcp_mux.StreamLife.{blank_stream}
use kcp_mux.Base.{◌<◌, ◌^◌, true, false, arith, ◌≡◌, refl, [], ◌∷◌, none, true}
use kcp_mux.World.{World}
use kcp_mux.Engine.{operation_leave, now}
use kcp_mux.Loop.{draw_connection_id, engine_update, engine_finish_batch, blank_world}
use kcp_mux.Scenarios.{fresh, ready, server_addr}
use kcp_mux.Run.{Call, Reach, here, next, after}
use kcp_mux.Run.Operation.{Advanced}
use kcp_mux.Life.Relation.{AreSized}
use kcp_mux.Run.Forward.{Reach-Advanced, Reach-AreSized}
use kcp_mux.Run.Due.{IsUpdated, entered_update, engine_update_drains}
use kcp_mux.Run.Batches.{IsFinished, entered_batch, engine_finish_batch_drains}

-- The client asks for a connection, opens a stream on it, sends, and lets the timers run.
abbrev asked : World
asked = after (Call.connect server_addr none (1 ∷ 2 ∷ []) none 0) ready

abbrev sent : World
sent = after (Call.send 2 (5 ∷ 6 ∷ []) true) (after (Call.create_stream 1 none none 0) asked)

client_reaches : Reach ready (after Call.update_engine sent)
client_reaches =
    next
      (next
        (next (next here (Call.connect server_addr none (1 ∷ 2 ∷ []) none 0))
          (Call.create_stream 1 none none 0))
        (Call.send 2 (5 ∷ 6 ∷ []) true))
      Call.update_engine

ready_outside : ready.engine.operation_depth ≡ 0
unfolding blank_world draw_connection_id
ready_outside = refl

Reach-Advanced_example : Advanced ready (after Call.update_engine sent)
Reach-Advanced_example =
    Reach-Advanced ready (after Call.update_engine sent) ready_outside client_reaches

nothing_sent : ready.trace ≡ []
unfolding blank_world draw_connection_id
nothing_sent = refl

Reach-AreSized_example : AreSized (after Call.update_engine sent).trace
Reach-AreSized_example =
    Reach-AreSized ready (after Call.update_engine sent) ready_outside nothing_sent client_reaches

-- A stream that waits for its turn, in a state that runs of calls reach.
asked_outside : asked.engine.operation_depth ≡ 0
asked_outside =
    (Reach-Advanced ready asked ready_outside
      (next here (Call.connect server_addr none (1 ∷ 2 ∷ []) none 0))).depth

engine_update_drains_example :
    (v : World) × IsUpdated (asked.host.monotonic_time_ms asked.calls) (entered_update asked) v
    × ((engine_update asked).1 ≡ (operation_leave v).1)
    × ((engine_update asked).1.timers.due ≡ [])
engine_update_drains_example = engine_update_drains asked asked_outside

engine_finish_batch_drains_example :
    (v : World) × IsFinished (now asked).0 (entered_batch asked) v
    × ((engine_finish_batch asked).1 ≡ (operation_leave v).1)
    × ((engine_finish_batch asked).1.engine.pending_batch_streams ≡ [])
engine_finish_batch_drains_example = engine_finish_batch_drains asked asked_outside

-- A connection that has heard nothing for forty seconds.
abbrev silent : World
silent = record fresh {
  next_address = 2;
  conns = λ c. record (fresh.conns c) {
    state = ConnState.connected;
    last_recv_ts = 0;
    config = conn_config_init;
  };
}

silent_open : (silent.conns 1).internal_closed ≡ false
unfolding blank_world blank_conn
silent_open = refl

-- Its close has not been acknowledged for as long, and the retry that is due is the last.
abbrev unanswered : World
unanswered = record silent {
  conns =
      λ c. record (silent.conns c) { state = ConnState.closing; last_ctrl_ts = 0; retry_count = 0 };
}

unanswered_open : (unanswered.conns 1).internal_closed ≡ false
unfolding blank_world blank_conn
unanswered_open = refl

unanswered-AreWords : AreWords (unanswered.conns 1)
unfolding conn_config_init
unanswered-AreWords = record { connects = omega arith; closes = omega arith }

unanswered-IsOverdue : IsOverdue ConnState.closing (unanswered.conns 1) 40000
unfolding conn_config_init deadline_after
unanswered-IsOverdue = omega arith

conn_update_decides_example :
    Outcome ConnState.closing (unanswered.conns 1) ((conn_update 1 40000 unanswered).1.conns 1)
conn_update_decides_example =
    conn_update_decides 1 40000 unanswered (omega arith) unanswered_open unanswered-AreWords
      (omega arith) unanswered-IsOverdue

-- A stream of the established connection whose application stopped reading.
abbrev unread : World
unread = record silent {
  next_address = 3;
  streams = λ s. record (fresh.streams s) {
    state = StreamState.closing;
    close_phase = ClosePhase.remote_drain;
    config = stream_config_init;
    drain_started_ts = 1000;
    conn = 1;
  };
}

unread_open : (unread.streams 2).internal_closed ≡ false
unfolding blank_world blank_stream
unread_open = refl

unread_retries : (unread.streams 2).config.close_retries < 2 ^ 32
unfolding stream_config_init
unread_retries = omega arith

unread-IsWaitedOut : IsWaitedOut (unread.streams 2) 6000
unfolding deadline_after stream_config_init
unread-IsWaitedOut = for_reads refl (omega arith)

stream_update_decides_example :
    Closing.Outcome (unread.streams 2) ((stream_update 2 6000 unread).1.streams 2)
stream_update_decides_example =
    stream_update_decides 2 6000 unread (omega arith) unread_open refl unread_retries silent_open
      refl unread-IsWaitedOut
