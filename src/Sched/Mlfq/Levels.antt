-- ===== src/Sched/Mlfq/Levels.antt =====
-- Boosting the three queues of Assignment-02-schedulers/offline_schedulers.h.
use simulating_the_functioni.Base.{◌≤◌, ◌≡◌, [], ◌++◌, map}
use simulating_the_functioni.Sched.Queues.{Queues, max_queue_size, boost_queues}
use simulating_the_functioni.Sched.Queues.Levels.{size, boosted}
use simulating_the_functioni.Sched.Mlfq.{Process, prioritized}

abbrev pub at_top : Process → Process
at_top p = record p { priority = 0 }

-- With at most 100 processes, boosting puts the second queue and then the third behind the first,
-- each in its order and with priority 0, drops none, and leaves these two queues empty.
pub boost_queues_lem :
    (qs : Queues Process)
    → size qs ≤ max_queue_size
    → boost_queues prioritized qs ≡ record {
      queue0 = qs.queue0 ++ map at_top qs.queue1 ++ map at_top qs.queue2;
      queue1 = [];
      queue2 = [];
    }
boost_queues_lem qs h = boosted prioritized qs h
