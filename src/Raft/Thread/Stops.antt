-- ===== src/Raft/Thread/Stops.antt =====
-- `stop` ends the thread of a node.
use cs525_project.Common.{true, ◌≡◌, refl, [], ◌∷◌}
use cs525_project.Raft.Client.{stop}
use cs525_project.Raft.Thread.{
  Phase, deciding, following, electing, leading, stopped, crashed, Thread, Readings, tick,
  call_stop, advance, step, run,
}

-- An exception has not ended the thread.
abbrev pub IsAlive : Phase → Type 0
IsAlive (crashed _) = ⊥
IsAlive _ = Unit

two_ticks :
    (r r' : Readings) (phase : Phase) (t : Thread)
    → IsAlive phase
    → t.node.terminate ≡ true
    → run (tick r ∷ tick r' ∷ []) (record t { phase = phase }) ≡ record t { phase = stopped }
unfolding run step advance
two_ticks r r' deciding t a e = rw e
two_ticks r r' (following last) t a e = rw e
two_ticks r r' (electing x) t a e = rw e
two_ticks r r' (leading last) t a e = rw e
two_ticks r r' stopped t a e = refl
two_ticks r r' (crashed x) t a e = absurd a

-- After `stop`, two steps of a thread that has not crashed end it, wherever it stands: the loop of its
-- role and the loop of `run` are left, no message is read or sent, and the node only has its mark to
-- terminate.
pub stop-stopped :
    (r r' : Readings) (t : Thread)
    → IsAlive t.phase
    → run (call_stop ∷ tick r ∷ tick r' ∷ []) t ≡ record t { node = stop t.node; phase = stopped }
unfolding run step stop
stop-stopped r r' t a = two_ticks r r' t.phase (record t { node = stop t.node }) a refl
