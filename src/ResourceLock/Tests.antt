-- ===== src/ResourceLock/Tests.antt =====
-- Runs of the locks of app/parallel_executor/resource_lock.py and declared_resources.py; `digest` is
-- the identity here.
use manus_claw.Prelude.{
  ℕ, ◌≡◌, String, some, ◌∷◌, lookup_or, true, [], refl, zero, false, nat_eq, none, lookup, arith,
}
use manus_claw.ResourceLock.RwLock
use manus_claw.ResourceLock.RwLock.{
  acquire_write, acquire_read, fresh, RwLock, acquire_write, acquire_read, is_write_locked,
}
use manus_claw.ResourceLock.RwLock.Threads.{
  Threads, idle_threads, try_read, try_write, try_read_step, try_write_step, Reach, here, next,
}
use manus_claw.ResourceLock.RwLock.Exclusion.{writer_excludes_all, reader_count-eq-total, total}
use manus_claw.ResourceLock.Declared.{ResourceDeclaration, read, write, lock_key, conflicts_with}
use manus_claw.ResourceLock.Conflicts.{declare, conflicts_with-reader}
use manus_claw.Prelude.{insert}
use manus_claw.ResourceLock.Declared.{has_key, is_write}
use manus_claw.ResourceLock.Pairwise.{HasDistinctLockKeys, pairwise, conflicts_with-eq-pairwise}
use manus_claw.ResourceLock.Manager.RoundTrip.{release_resources-acquire_resources_explicit}
use manus_claw.ResourceLock.Manager.{
  acquire_all, Handle, release_resources, Locks, acquire_resources, acquire_resources_explicit,
  is_resource_locked, sorted, acquire_mode,
}
use manus_claw.ResourceLock.Manager.Restore.{SameLocks, undisturbed, IsTidyAt}
use manus_claw.ResourceLock.Manager.Scope.{acquire_resources_restores}
use manus_claw.ResourceLock.Manager.Info.{get_lock_info, info_of}
use manus_claw.ResourceLock.Declared.Factories.{network_resource, decimal}
use manus_claw.ResourceLock.Manager.Leak.{explicit_failure_keeps_lock}

abbrev same_text : String → String
same_text s = s

-- Thread 1 writes; thread 2 has tried to read.
abbrev one_writer : Threads
one_writer = try_read 2 (try_write 1 idle_threads)

one_writer_reached : Reach idle_threads one_writer
one_writer_reached = next (next here (try_write_step 1)) (try_read_step 2)

writer_excludes_all_example :
    (one_writer.reads 2 ≡ 0) × (one_writer.writes 2 ≡ true → ◌≡◌ {A = ℕ} 1 2)
writer_excludes_all_example =
    writer_excludes_all one_writer 1 2 one_writer_reached (unfold try_read try_write in refl)

-- Thread 1 reads twice, and thread 2 once.
abbrev three_reads : Threads
three_reads = try_read 2 (try_read 1 (try_read 1 idle_threads))

three_reads_reached : Reach idle_threads three_reads
three_reads_reached = next (next (next here (try_read_step 1)) (try_read_step 1)) (try_read_step 2)

reader_count-eq-total_example :
    (RwLock.reader_count three_reads.lock ≡ total three_reads.lock.reader_threads)
    × (lookup_or 0 1 three_reads.lock.reader_threads ≡ three_reads.reads 1)
reader_count-eq-total_example = reader_count-eq-total three_reads 1 three_reads_reached

abbrev file : ResourceDeclaration
file = declare "file" "/a" write

abbrev page : ResourceDeclaration
page = declare "network" "b:80" read

nothing_tidy : IsTidyAt same_text 1 []
unfolding lookup lookup_or
nothing_tidy key h = cc

acquire_resources_restores_example :
    SameLocks
      (acquire_resources same_text 1 3 undisturbed (page ∷ file ∷ []) (λ l. (zero, l)) []).1
      []
acquire_resources_restores_example =
    acquire_resources_restores same_text 1 3 (page ∷ file ∷ []) (λ l. (zero, l)) [] nothing_tidy
      (λ m key. refl)

-- Another thread writes to the page.
abbrev page_taken : Locks
page_taken = (lock_key same_text page, record fresh { writer = some 2 }) ∷ []

page_taken_tidy : IsTidyAt same_text 1 page_taken
unfolding lookup lookup_or lock_key
page_taken_tidy key h = ground (arith, h)

file_first : sorted same_text 1 (page ∷ file ∷ []) ≡ file ∷ page ∷ []
unfolding sorted lock_key
file_first = refl

explicit_failure_keeps_lock_example :
    let (handle, l) =
      acquire_resources_explicit same_text 1 3 undisturbed (page ∷ file ∷ []) page_taken in
    (handle ≡ none) × (is_resource_locked (lock_key same_text file) l ≡ true)
explicit_failure_keeps_lock_example =
    explicit_failure_keeps_lock same_text 1 file page [] page_taken page_taken_tidy
      (unfold acquire_mode acquire_write lookup lookup_or lock_key in refl)
      (unfold acquire_mode acquire_read lookup lookup_or lock_key in refl)
      (unfold lock_key in λ e. cc) 2 (page ∷ file ∷ []) file_first

-- The WRITE declaration comes first, and the last one of the file is READ.
conflicts_with-reader_example :
    let r = declare "file" "/a" read in
    let w = declare "file" "/a" write in
    conflicts_with same_text (w ∷ page ∷ r ∷ []) (r ∷ []) ≡ false
unfolding lock_key is_write
conflicts_with-reader_example =
    let r = declare "file" "/a" read in
    conflicts_with-reader same_text (declare "file" "/a" write ∷ page ∷ r ∷ []) r refl

last_write_conflicts :
    let r = declare "file" "/a" read in
    let w = declare "file" "/a" write in
    conflicts_with same_text (r ∷ page ∷ w ∷ []) (r ∷ []) ≡ true
unfolding conflicts_with lock_key lookup insert
last_write_conflicts = refl

one_file_distinct : HasDistinctLockKeys same_text (page ∷ file ∷ [])
unfolding lock_key has_key
one_file_distinct = (refl, (refl, tt))

conflicts_with-eq-pairwise_example :
    conflicts_with same_text (page ∷ file ∷ []) (page ∷ file ∷ [])
    ≡ pairwise same_text (page ∷ file ∷ []) (page ∷ file ∷ [])
conflicts_with-eq-pairwise_example =
    conflicts_with-eq-pairwise same_text (page ∷ file ∷ []) (page ∷ file ∷ []) one_file_distinct
      one_file_distinct

abbrev held_handle : Handle
held_handle = record {
  acquired = ("file::/a", write) ∷ ("network::b:80", read) ∷ [];
  released = false;
}

abbrev held_locks : Locks
held_locks =
    ("file::/a", record fresh { writer = some 1 })
    ∷ ("network::b:80", record { readers = 1; writer = none; reader_threads = (1, 1) ∷ [] })
    ∷ []

both_acquired :
    acquire_resources_explicit same_text 1 3 undisturbed (page ∷ file ∷ []) []
    ≡ (some held_handle, held_locks)
unfolding acquire_resources_explicit lock_key acquire_all sorted acquire_write acquire_read
both_acquired = refl

release_resources-acquire_resources_explicit_example :
    let (handle, l) = release_resources same_text 1 held_handle held_locks in
    SameLocks l [] × (release_resources same_text 1 handle l ≡ (handle, l))
release_resources-acquire_resources_explicit_example =
    release_resources-acquire_resources_explicit same_text 1 3 (page ∷ file ∷ []) [] held_locks
      held_handle nothing_tidy both_acquired

network_on_port :
    network_resource "b" (some 8080) read
    ≡ record { resource_type = "network"; resource_id = "b:8080"; mode = read } ∷ []
unfolding network_resource
network_on_port = refl

ports_as_text : (decimal 0 ≡ "0") × (decimal 80 ≡ "80") × (decimal 65535 ≡ "65535")
unfolding decimal
ports_as_text = (refl, refl, refl)

held_info :
    get_lock_info held_locks
    ≡ ("file::/a", record { write_locked = true; readers = 0 })
      ∷ ("network::b:80", record { write_locked = false; readers = 1 })
      ∷ []
unfolding get_lock_info info_of is_write_locked
held_info = refl
