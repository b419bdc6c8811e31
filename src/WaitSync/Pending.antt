-- ===== src/WaitSync/Pending.antt =====
-- src/impl/base/wait_sync.c: the list of pending structures that `ompi_sync_wait_mt` keeps, a ring
-- through `next` and `prev`, and the two pieces of it that change the ring.
pub mod Chain
pub mod Ring
pub mod Insert
pub mod Remove
mod Tests
use libult.Base.{Ptr, null, ◌==◌, if◌then◌else◌, update}
use libult.WaitSync.State.{Mem, pass_ownership, thread_lock, thread_unlock}

-- Between the lock and the unlock: "Insert sync on the list of pending synchronization constructs".
unfoldable pub insert_pending : Ptr → Mem → Mem
insert_pending sync m =
    if m.list == null
    then record m { prev = update m.prev sync sync; next = update m.next sync sync; list = sync }
    else (let m = record m { prev = update m.prev sync (m.prev m.list) } in
        let m = record m { next = update m.next (m.prev sync) sync } in
        let m = record m { next = update m.next sync m.list } in
        record m { prev = update m.prev m.list sync })

-- The same with its lock.
unfoldable pub insert_locked : Ptr → Mem → Mem
insert_locked sync m = thread_unlock (insert_pending sync (thread_lock m))

-- "Trim the list: remove self", the two writes.
unfoldable pub unlink : Ptr → Mem → Mem
unlink sync m =
    let m = record m { next = update m.next (m.prev sync) (m.next sync) } in
    record m { prev = update m.prev (m.next sync) (m.prev sync) }

-- "In case I am the progress manager, pass the duties on".
unfoldable pub pass_duties : Ptr → Mem → Mem
pass_duties sync m =
    if sync == m.list
    then (let m = record m { list = if sync == m.next sync then null else m.next sync } in
        if m.list == null then m else pass_ownership m.list m)
    else m

-- From `i_am_done` to the end, with its lock.
unfoldable pub trim_locked : Ptr → Mem → Mem
trim_locked sync m = thread_unlock (pass_duties sync (unlink sync (thread_lock m)))
