-- ===== src/Server/Shutdown/Invariant.antt =====
-- io_thread.cpp: what holds from the creation of the thread to its end.
use rpc_framework.Base.{◌≤◌, refl, arith}
use rpc_framework.Server.Startup.{
  IoThreadStart, Step, creates, makes_loop, posts_init, passes_init, starts, passes_start,
  is_constructed, is_looping, bit, IsCounted, Step-IsCounted,
}
use rpc_framework.Server.Shutdown.{
  IoThreadLife, Live, starts_up, stops_loop, ends_loop, calls_join, passes_join, destructs,
  passes_destructor, Lives, stays, then_one, begin, is_leaving, is_destructing, is_ending, is_gone,
  destruct,
}

pub record IsLively (s : IoThreadLife) : Type 0 where
  pub counted : IsCounted s.startup
  pub stopped : bit s.has_ended ≤ bit s.m_stop_flag
  pub looped : bit s.has_ended ≤ is_looping s.startup.main
  pub deleted : bit s.is_deleted ≤ bit s.has_ended
  pub gone : is_gone s.keeper ≤ bit s.has_ended
  pub destructing : is_destructing s.keeper ≤ bit s.m_stop_flag
  pub past : is_ending s.keeper ≤ is_looping s.startup.main
  pub kept : is_leaving s.keeper ≤ is_constructed s.startup.creator

Step-looping : {s t : IoThreadStart} → Step s t → is_looping s.main ≤ is_looping t.main
Step-looping (creates e f) = ground (arith, e, f)
Step-looping (makes_loop e) = ground (arith, e)
Step-looping (posts_init e) = ground (arith, e)
Step-looping (passes_init n e f) = ground arith
Step-looping (starts e) = ground arith
Step-looping (passes_start n e f) = ground (arith, e)

Step-constructed :
    {s t : IoThreadStart} → Step s t → is_constructed s.creator ≤ is_constructed t.creator
Step-constructed (creates e f) = ground (arith, e, f)
Step-constructed (makes_loop e) = ground arith
Step-constructed (posts_init e) = ground arith
Step-constructed (passes_init n e f) = ground (arith, e)
Step-constructed (starts e) = ground (arith, e)
Step-constructed (passes_start n e f) = ground arith

Live-IsLively : {s t : IoThreadLife} → Live s t → IsLively s → IsLively t
unfolding destruct
Live-IsLively (starts_up st w) i = record {
  counted = Step-IsCounted st i.counted;
  stopped = i.stopped;
  looped = omega (arith, i.looped, Step-looping st);
  deleted = i.deleted;
  gone = i.gone;
  destructing = i.destructing;
  past = omega (arith, i.past, Step-looping st);
  kept = omega (arith, i.kept, Step-constructed st);
}
Live-IsLively (stops_loop e) i = record {
  counted = i.counted;
  stopped = ground (arith, i.stopped);
  looped = i.looped;
  deleted = i.deleted;
  gone = i.gone;
  destructing = ground (arith, i.destructing);
  past = i.past;
  kept = i.kept;
}
Live-IsLively (ends_loop e f) i = record {
  counted = i.counted;
  stopped = ground (arith, f);
  looped = ground (arith, e);
  deleted = ground (arith, i.deleted);
  gone = ground (arith, i.gone);
  destructing = i.destructing;
  past = i.past;
  kept = i.kept;
}
Live-IsLively (calls_join e f) i = record {
  counted = i.counted;
  stopped = i.stopped;
  looped = i.looped;
  deleted = i.deleted;
  gone = ground arith;
  destructing = ground arith;
  past = ground arith;
  kept = ground (arith, f);
}
Live-IsLively {s} (passes_join e f) i = record {
  counted = i.counted;
  stopped = i.stopped;
  looped = i.looped;
  deleted = i.deleted;
  gone = ground arith;
  destructing = ground arith;
  past = ground arith;
  kept = ground (arith, i.kept, e);
}
Live-IsLively (destructs e f) i = record {
  counted = i.counted;
  stopped = ground (arith, i.stopped);
  looped = i.looped;
  deleted = i.deleted;
  gone = ground arith;
  destructing = ground arith;
  past = ground arith;
  kept = ground (arith, f);
}
Live-IsLively (passes_destructor e f) i = record {
  counted = i.counted;
  stopped = i.stopped;
  looped = i.looped;
  deleted = ground (arith, f);
  gone = ground (arith, f);
  destructing = ground (arith, i.destructing, e);
  past = ground (arith, i.past, e);
  kept = ground (arith, i.kept, e);
}

pub Lives-IsLively : {s t : IoThreadLife} → Lives s t → IsLively s → IsLively t
Lives-IsLively stays i = i
Lives-IsLively (then_one l o) i = Live-IsLively o (Lives-IsLively l i)

pub begin-IsLively : IsLively begin
begin-IsLively = record {
  counted = record { created = refl; loop = refl; init = refl; start = refl };
  stopped = ground arith;
  looped = ground arith;
  deleted = ground arith;
  gone = ground arith;
  destructing = ground arith;
  past = ground arith;
  kept = ground arith;
}
