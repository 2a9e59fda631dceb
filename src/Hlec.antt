-- ===== src/Hlec.antt =====
-- hlec/hlec.cpp: events in a chain on the heap. An address is a number, 0 for `nullptr`; an
-- identifier is a 64-bit pattern. A walk along the chain takes fuel, and `none` means that it ran
-- out. What `malloc` and `strdup` return is an argument.
pub mod Chain
pub mod Unlink
pub mod Remove
pub mod Create
pub mod Raise
pub mod Lost
mod Tests
use mathlib.Core.Option
use helix_kernel.Prelude.{
  ℕ, zero, suc, ◌+◌, ◌-◌, ◌%◌, ◌^◌, Bool, true, false, Option, none, some, ◌==◌, if◌then◌else◌,
}

-- `__private_event_context`; a callback is the address of its function.
pub record Event : Type 0 where
  pub ev_id : ℕ
  pub ev_name : ℕ
  pub event_callback : ℕ
  pub quiet : Bool
  pub ev_next : ℕ

abbrev pub Heap : Type 0
Heap = ℕ → Event

pub record Manager : Type 0 where
  pub heap : Heap
  pub first_event : ℕ
  pub last_event : ℕ
  pub last_id : ℕ

unfoldable pub write : Heap → ℕ → Event → Heap
write h a e x = if x == a then e else h x

-- `a->ev_next = n`
unfoldable pub set_next : Heap → ℕ → ℕ → Heap
set_next h a n = write h a (record (h a) { ev_next = n })

-- `alloc_event`: the identifier of a new event is what the memory held.
unfoldable pub alloc_event : ℕ → Manager → ℕ × Manager
alloc_event new_ev m =
    let h =
      write m.heap new_ev
        (record (m.heap new_ev) { ev_next = 0; ev_name = 0; event_callback = 0; quiet = true }) in
    if new_ev == 0
    then (0, m)
    else if m.first_event == 0
    then (new_ev, record m { heap = h; first_event = new_ev; last_event = new_ev })
    else (new_ev, record m { heap = set_next h m.last_event new_ev; last_event = new_ev })

-- `get_prev_event_for_id` from `curr` on.
unfoldable pub get_prev_event_for_id : ℕ → Heap → ℕ → ℕ → Option ℕ
get_prev_event_for_id zero h curr event_id = none
get_prev_event_for_id (suc fuel) h curr event_id =
    let rest = get_prev_event_for_id fuel h (h curr).ev_next event_id in
    if curr == 0
    then some 0
    else if (h curr).ev_next == 0
    then some 0
    else if (h (h curr).ev_next).ev_id == event_id
    then some curr
    else rest

-- `get_event_for_id` from `curr` on.
unfoldable pub get_event_for_id : ℕ → Heap → ℕ → ℕ → Option ℕ
get_event_for_id zero h curr event_id = none
get_event_for_id (suc fuel) h curr event_id =
    let rest = get_event_for_id fuel h (h curr).ev_next event_id in
    if curr == 0 then some 0 else if (h curr).ev_id == event_id then some curr else rest

-- `new_event`: the context, `nullptr` without memory.
unfoldable pub new_event : ℕ → ℕ → Manager → ℕ × Manager
new_event new_ev name m =
    let (ev, s) = alloc_event new_ev m in
    if ev == 0 then (0, s) else (
      ev,
      record s {
        heap =
            write s.heap ev
              (record (s.heap ev) { ev_id = s.last_id; ev_name = name; quiet = true });
        last_id = (s.last_id + 1) % 2 ^ 64;
      },
    )

-- `remove_event` once the walks have found `prev` and `node`. The heap keeps what freed memory
-- held.
unfoldable pub unlink : ℕ → ℕ → Manager → Manager
unlink prev node m =
    let next = (m.heap node).ev_next in
    if node == 0
    then m
    else if prev == 0
    then record m { heap = set_next m.heap node 0; first_event = next }
    else record m { heap = set_next (set_next m.heap prev next) node 0 }

unfoldable pub unlink_found : Option ℕ → Option ℕ → Manager → Option Manager
unlink_found none found m = none
unlink_found (some prev) none m = none
unlink_found (some prev) (some node) m = some (unlink prev node m)

-- `remove_event(int64_t)`
unfoldable pub remove_event : ℕ → ℕ → Manager → Option Manager
remove_event fuel event_id m =
    unlink_found (get_prev_event_for_id fuel m.heap m.first_event event_id)
      (get_event_for_id fuel m.heap m.first_event event_id) m

-- `remove_event(event_context*)`
unfoldable pub remove_context : ℕ → ℕ → Manager → Option Manager
remove_context fuel ev m = if ev == 0 then some m else remove_event fuel (m.heap ev).ev_id m

-- `register_event_callback(event_context*, ...)`
unfoldable pub register_context_callback : ℕ → ℕ → Manager → Bool × Manager
register_context_callback ev callback m = if ev == 0 then (false, m) else (
  true,
  record m { heap = write m.heap ev (record (m.heap ev) { event_callback = callback }) },
)

-- `set_event_quiet` and `unset_event_quiet` on a context.
unfoldable pub put_context_quiet : Bool → ℕ → Manager → Manager
put_context_quiet quiet ev m =
    if ev == 0
    then m
    else record m { heap = write m.heap ev (record (m.heap ev) { quiet = quiet }) }

-- What `raise_event` does: return -1, or return what the callback returns for `argc` and `args`.
pub data Raised : Type 0 where
  refused : Raised
  calls : (callback argc args : ℕ) → Raised

-- `raise_event(event_context*, ...)`
unfoldable pub raise_context : ℕ → ℕ → ℕ → Manager → Raised
raise_context ev argc args m =
    if ev == 0
    then refused
    else if (m.heap ev).quiet
    then refused
    else if (m.heap ev).event_callback == 0
    then refused
    else calls (m.heap ev).event_callback argc args

-- `obtain_event_id`
unfoldable pub obtain_event_id : ℕ → Manager → ℕ
obtain_event_id ev m = if ev == 0 then 2 ^ 64 - 1 else (m.heap ev).ev_id

-- The calls by identifier find the event and do the same.
unfoldable pub register_event_callback : ℕ → ℕ → ℕ → Manager → Option (Bool × Manager)
register_event_callback fuel event_id callback m =
    Option.map (λ ev. register_context_callback ev callback m)
      (get_event_for_id fuel m.heap m.first_event event_id)

unfoldable pub put_event_quiet : ℕ → Bool → ℕ → Manager → Option Manager
put_event_quiet fuel quiet event_id m =
    Option.map (λ ev. put_context_quiet quiet ev m)
      (get_event_for_id fuel m.heap m.first_event event_id)

unfoldable pub raise_event : ℕ → ℕ → ℕ → ℕ → Manager → Option Raised
raise_event fuel event_id argc args m =
    Option.map (λ ev. raise_context ev argc args m)
      (get_event_for_id fuel m.heap m.first_event event_id)
