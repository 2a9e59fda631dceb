-- ===== src/Hlec/Tests.antt =====
-- The theorems on hlec/hlec.cpp at a manager with two events.
use helix_kernel.Prelude.{◌≡◌, refl, true, false, some, [], ◌∷◌, arith}
use helix_kernel.Hlec.{
  Event, Manager, write, new_event, remove_event, get_event_for_id, register_context_callback,
  put_context_quiet, register_event_callback, put_event_quiet, raise_event, refused, calls,
}
use helix_kernel.Hlec.Chain.{Holds}
use helix_kernel.Hlec.Remove.{Removed, remove_event-erase}
use helix_kernel.Hlec.Create.{Last, Created, new_event-append}
use helix_kernel.Hlec.Raise.{raise_event-cycle}
use helix_kernel.Hlec.Lost.{remove_event-new_event}

abbrev boot_event : Event
boot_event = record {
  ev_id = 0;
  ev_name = 0x9000;
  event_callback = 0;
  quiet = true;
  ev_next = 0x2000;
}

abbrev key_event : Event
key_event = record { ev_id = 1; ev_name = 0x9100; event_callback = 0; quiet = true; ev_next = 0 }

abbrev two_events : Manager
two_events = record {
  heap = write (λ a. boot_event) 0x2000 key_event;
  first_event = 0x1000;
  last_event = 0x2000;
  last_id = 2;
}

two_events-Holds : Holds two_events (0x1000 ∷ 0x2000 ∷ [])
unfolding write
two_events-Holds = record {
  chain = (refl, omega arith, (refl, omega arith, refl));
  distinct = ((omega arith, tt), (tt, tt));
  issued = (omega arith, (omega arith, tt));
}

remove_event-erase_example :
    (n : Manager) × (remove_event 3 1 two_events ≡ some n)
    × Removed two_events n 1 (0x1000 ∷ 0x2000 ∷ [])
remove_event-erase_example =
    remove_event-erase (0x1000 ∷ 0x2000 ∷ []) 3 1 two_events two_events-Holds (omega arith)

new_event-append_example :
    ((new_event 0x3000 0x9200 two_events).0 ≡ 0x3000)
    × Holds (new_event 0x3000 0x9200 two_events).1 (0x1000 ∷ 0x2000 ∷ 0x3000 ∷ [])
    × Last (new_event 0x3000 0x9200 two_events).1.last_event (0x1000 ∷ 0x2000 ∷ 0x3000 ∷ [])
    × Created 0x3000 two_events (new_event 0x3000 0x9200 two_events).1
new_event-append_example =
    new_event-append (0x1000 ∷ 0x2000 ∷ []) 0x3000 0x9200 two_events two_events-Holds refl
      (omega arith) (omega arith, (omega arith, tt)) (omega arith)

raise_event-cycle_example :
    let n1 = (register_context_callback 0x2000 0x7000 two_events).1 in
    let n2 = put_context_quiet false 0x2000 n1 in
    let n3 = put_context_quiet true 0x2000 n2 in
    (register_event_callback 3 1 0x7000 two_events ≡ some (true, n1))
    × (put_event_quiet 3 false 1 n1 ≡ some n2)
    × (raise_event 3 1 4 0x8000 n2 ≡ some (calls 0x7000 4 0x8000))
    × (put_event_quiet 3 true 1 n2 ≡ some n3)
    × (raise_event 3 1 4 0x8000 n3 ≡ some refused)
unfolding write
raise_event-cycle_example =
    raise_event-cycle (0x1000 ∷ []) [] 3 0x2000 0x7000 4 0x8000 two_events two_events-Holds
      (omega arith) (omega arith) (omega arith)

remove_event-new_event_example :
    (n : Manager) × (remove_event 3 1 two_events ≡ some n)
    × (get_event_for_id 3
          (new_event 0x3000 0x9200 n).1.heap
          (new_event 0x3000 0x9200 n).1.first_event
          n.last_id
        ≡ some 0)
unfolding write
remove_event-new_event_example =
    remove_event-new_event 0x1000 (0x2000 ∷ []) 3 0x3000 0x9200 two_events two_events-Holds refl
      (omega arith) (omega arith, (omega arith, tt)) (omega arith)
