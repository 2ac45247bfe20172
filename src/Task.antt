-- ===== src/Task.antt =====
-- kernel/src/task.c and task.h: tasks in a circular list of nodes on the heap, and the
-- round-robin scheduler.
-- Nodes are a map from addresses, as are the words of the stacks. The walks along the list run on
-- fuel for 2 ^ 20 tasks; a heap of 16 MiB has room for fewer. `none` is a walk that runs out, or a
-- call of the heap that does not return. The messages on the serial line are left out.
pub mod Lists
pub mod Ring
pub mod Freed
pub mod Destroy
pub mod Reap
pub mod Turn
pub mod Schedule
pub mod Fair
pub mod Insert
pub mod Create
pub mod Init
pub mod Context
pub mod Tests
use tuna_os.Base.{
  ℕ, zero, suc, ◌+◌, ◌-◌, ◌*◌, ◌^◌, Bool, true, false, not, ◌||◌, Option, none, some, ◌==◌,
  if◌then◌else◌, update, u64,
}
use tuna_os.Kheap.{Kheap, kmalloc, kfree}

abbrev pub task_stack_size : ℕ
task_stack_size = 8192

-- sizeof(struct task).
abbrev pub node_size : ℕ
node_size = 40

abbrev pub task_ready : ℕ
task_ready = 0

abbrev pub task_running : ℕ
task_running = 1

abbrev pub task_dead : ℕ
task_dead = 2

-- `struct task`, without its padding.
pub record Task : Type 0 where
  pub id : ℕ
  pub rsp : ℕ
  pub state : ℕ
  pub stack : ℕ
  pub next : ℕ

-- The static variables, the nodes by address, the words of the stacks and the heap below.
pub record Tasks : Type 0 where
  pub next_id : ℕ
  pub current_task : ℕ
  pub task_list : ℕ
  pub nodes : ℕ → Task
  pub words : ℕ → ℕ
  pub heap : Kheap

abbrev pub walk_fuel : ℕ
walk_fuel = 2 ^ 20

abbrev pub set_next : (t next : ℕ) → (ℕ → Task) → ℕ → Task
set_next t next nodes = update nodes t (record (nodes t) { next = next })

abbrev pub set_state : (t state : ℕ) → (ℕ → Task) → ℕ → Task
set_state t state nodes = update nodes t (record (nodes t) { state = state })

-- From `p` along `next` to the node in front of `target`: while (p->next != target) p = p->next.
unfoldable pub find_prev : ℕ → (target p : ℕ) → (ℕ → Task) → Option ℕ
find_prev zero target p nodes = none
find_prev (suc fuel) target p nodes =
    let rest = find_prev fuel target (nodes p).next nodes in
    if (nodes p).next == target then some p else rest

-- The kernel's first task; NULL where there is no memory.
unfoldable pub task_init : Tasks → Option Tasks
task_init s = elim (kmalloc node_size s.heap) [
  | none ↦ none
  | some (boot, heap) ↦
      let failed : Option Tasks = some (record s { heap = heap }) in
      let made : Option Tasks = some (record s {
        next_id = u64 (s.next_id + 1);
        current_task = boot;
        task_list = boot;
        nodes =
            update s.nodes boot
              (record { id = s.next_id; rsp = 0; state = task_running; stack = 0; next = boot });
        heap = heap;
      }) in
      if boot == 0 then failed else made
]

-- *(--sp) = value.
abbrev pub push : (value : ℕ) → ℕ × (ℕ → ℕ) → ℕ × (ℕ → ℕ)
push value (sp, words) = (sp - 8, update words (sp - 8) value)

-- The frame that `switch_to` pops, from the return address down to R15.
unfoldable pub initial_stack : (trampoline entry stack : ℕ) → (ℕ → ℕ) → ℕ × (ℕ → ℕ)
initial_stack trampoline entry stack words = push 0 (
    push 0
      (push 0 (push entry (push 0 (push 0 (push trampoline (stack + task_stack_size, words)))))))

-- The insertion into the circular list.
unfoldable pub insert_task : (t : ℕ) → Tasks → Option Tasks
insert_task t s =
    let only : Option Tasks = some (record s { nodes = set_next t t s.nodes; task_list = t }) in
    let behind : Option Tasks = elim (find_prev walk_fuel s.task_list s.task_list s.nodes) [
      | none ↦ none
      | some tail ↦ some (record s { nodes = set_next t s.task_list (set_next tail t s.nodes) })
    ] in
    if s.task_list == 0 then only else behind

-- The node `t` with the stack at `stack` is filled in and inserted.
unfoldable pub add_task : (trampoline entry t stack : ℕ) → Tasks → Option (ℕ × Tasks)
add_task trampoline entry t stack s =
    let (sp, words) = initial_stack trampoline entry stack s.words in
    elim (insert_task t (record s {
      next_id = u64 (s.next_id + 1);
      nodes =
          update s.nodes t
            (record (s.nodes t) { id = s.next_id; rsp = sp; state = task_ready; stack = stack });
      words = words;
    })) [ none ↦ none | some s' ↦ some (t, s') ]

-- `trampoline` is the address of `task_trampoline`. The result is the new task or NULL.
unfoldable pub task_create : (trampoline entry : ℕ) → Tasks → Option (ℕ × Tasks)
task_create trampoline entry s = elim (kmalloc node_size s.heap) [
  | none ↦ none
  | some (t, heap) ↦
      let with_stack : Option (ℕ × Tasks) = elim (kmalloc task_stack_size heap) [
        | none ↦ none
        | some (stack, heap') ↦
            let no_stack : Option (ℕ × Tasks) = elim (kfree t heap') [
              | none ↦ none
              | some heap'' ↦ some (0, record s { heap = heap'' })
            ] in
            let added = add_task trampoline entry t stack (record s { heap = heap' }) in
            if stack == 0 then no_stack else added
      ] in
      if t == 0 then some (0, record s { heap = heap }) else with_stack
]

-- The removal from the circular list.
unfoldable pub remove_task : (t : ℕ) → Tasks → Option Tasks
remove_task t s =
    let last : Option Tasks = some (record s { task_list = 0 }) in
    let linked : Option Tasks = elim (find_prev walk_fuel t s.task_list s.nodes) [
      | none ↦ none
      | some prev ↦ some (record s {
        nodes = set_next prev (s.nodes t).next s.nodes;
        task_list = if s.task_list == t then (s.nodes t).next else s.task_list;
      })
    ] in
    if (s.nodes t).next == t then last else linked

-- The memory of a task goes back to the heap.
unfoldable pub free_task : (t : ℕ) → Tasks → Option Tasks
free_task t s =
    let heap = if (s.nodes t).stack == 0 then some s.heap else kfree (s.nodes t).stack s.heap in
    elim heap [
      | none ↦ none
      | some h ↦ elim (kfree t h) [ none ↦ none | some h' ↦ some (record s { heap = h' }) ]
    ]

unfoldable pub task_destroy : (t : ℕ) → Tasks → Option Tasks
task_destroy t s =
    let removed : Option Tasks = elim (remove_task t s) [
      | none ↦ none
      | some s' ↦ free_task t s'
    ] in
    if t == 0 then some s else removed

-- The first loop of `schedule`, from `t` on: dead tasks other than the current one are destroyed.
unfoldable pub reap : ℕ → (t : ℕ) → Tasks → Option Tasks
reap zero t s = none
reap (suc fuel) t s =
    let save_next = (s.nodes t).next in
    let cleaned = if (s.nodes t).state == task_dead then task_destroy t s else some s in
    let rest : Option Tasks = elim cleaned [ none ↦ none | some s' ↦ reap fuel save_next s' ] in
    if t == s.current_task then some s else rest

-- The second loop, from `next` on: the first ready task, or `start` again.
unfoldable pub find_ready : ℕ → (start next : ℕ) → (ℕ → Task) → Option ℕ
find_ready zero start next nodes = none
find_ready (suc fuel) start next nodes =
    let after = (nodes next).next in
    let rest = find_ready fuel start after nodes in
    if (nodes next).state == task_ready
    then some next
    else if after == start
    then some after
    else rest

-- A call of `switch_to`: the task whose stack pointer is saved, and the one that is loaded.
pub record Switch : Type 0 where
  pub from : ℕ
  pub new_rsp : ℕ

-- The choice that was made, and the two states.
unfoldable pub switch_task : (next : ℕ) → Tasks → Option Switch × Tasks
switch_task next s =
    let prev = s.current_task in
    let nodes =
      if (s.nodes prev).state == task_running then set_state prev task_ready s.nodes else s.nodes in
    if (next == prev) || not ((s.nodes next).state == task_ready) then (none, s) else (
      some (record { from = prev; new_rsp = (nodes next).rsp }),
      record s { current_task = next; nodes = set_state next task_running nodes },
    )

unfoldable pub schedule : Tasks → Option (Option Switch × Tasks)
schedule s =
    let reaped = reap walk_fuel (s.nodes s.current_task).next s in
    let chosen : Option (Option Switch × Tasks) = elim reaped [
      | none ↦ none
      | some s' ↦
          let start = (s'.nodes s'.current_task).next in
          elim (find_ready walk_fuel start start s'.nodes) [
            | none ↦ none
            | some next ↦ some (switch_task next s')
          ]
    ] in
    if (s.current_task == 0) || ((s.nodes s.current_task).next == 0) then some (none, s) else chosen

-- Up to the call of `schedule`, and the call.
unfoldable pub task_exit : Tasks → Option (Option Switch × Tasks)
task_exit s = schedule (record s { nodes = set_state s.current_task task_dead s.nodes })

unfoldable pub yield : Tasks → Option (Option Switch × Tasks)
yield s = schedule s

unfoldable pub task_get_current : Tasks → ℕ
task_get_current s = s.current_task

unfoldable pub task_get_list : Tasks → ℕ
task_get_list s = s.task_list
