-- ===== src/Cache/Tests.antt =====
-- The caches on small inputs.
use arcella_lib.Prelude.{◌++◌, ℕ, String, ◌≡◌, ◌≤◌, refl, false, none, [], ◌∷◌, arith, length}
use arcella_lib.Prelude.Int.{pos}
use arcella_lib.Prelude.Dict
use arcella_lib.Prelude.Dict.{string_eq, spare}
use arcella_lib.Cache.Mem
use arcella_lib.Cache.Ttl
use arcella_lib.Cache.Ttl.{Cache, new_cache, CacheItem}
use arcella_lib.Cache.Ttl.Heap.{push}
use arcella_lib.Cache.Ttl.Sweep
use arcella_lib.Cache.Ttl.Sweep.{IsValid, expired_at}
use arcella_lib.Cache.Ttl.Reads
use arcella_lib.Cache.Ttl.Reads.{Call, Calls, new_cache-IsValid, served}
use arcella_lib.Cache.Ttl.Limit
use arcella_lib.Cache.Ttl.Reaper

abbrev empty : Cache ℕ
empty = new_cache

abbrev two : Cache ℕ
two = Ttl.set (Ttl.set empty "a" 1 (pos 50) 100 100) "b" 2 (pos 10) 101 102

abbrev limited : Cache ℕ
limited = Ttl.set_max_entries two (pos 2)

limited-Calls : Calls empty limited
limited-Calls =
    Calls.next
      (Calls.next (Calls.next Calls.done (Call.set_call "a" 1 (pos 50) 100 100))
        (Call.set_call "b" 2 (pos 10) 101 102))
      (Call.max_call (pos 2))

limited-IsValid : IsValid limited
limited-IsValid = Reads.Calls-IsValid limited-Calls new_cache-IsValid

-- The shorter-lived entry is the queue's head.
two_queue :
    limited.expiry_heap
    ≡ record { key = "b"; expiry = 112; seq = 2 } ∷ record { key = "a"; expiry = 150; seq = 1 } ∷ []
unfolding Ttl.set Ttl.set_max_entries Ttl.store push Dict.insert Dict.lookup
two_queue = refl

sweep_one : length (Ttl.pop_expired_locked 120 limited).items ≡ 1
unfolding Ttl.set Ttl.set_max_entries Ttl.store push Dict.insert Dict.lookup Ttl.pop_expired_locked
    Ttl.pop_loop Ttl.discard Dict.remove
sweep_one = refl

abbrev blank : Mem.Cache String ℕ
blank = Mem.new_cache

get-set_example : Mem.get (Mem.set blank "a" 1) "b" ≡ Mem.get blank "b"
get-set_example = Mem.get-set blank "a" "b" 1

get-del_example : Mem.get (Mem.del blank "a") "a" ≡ (none, false)
get-del_example = Mem.get-del blank "a" "a"

Calls-IsValid_example : IsValid limited
Calls-IsValid_example = Reads.Calls-IsValid limited-Calls new_cache-IsValid

lookup-pop_expired_locked_example :
    Dict.lookup "b" (Ttl.pop_expired_locked 120 limited).items
    ≡ spare (expired_at 120) (Dict.lookup "b" limited.items)
lookup-pop_expired_locked_example = Sweep.lookup-pop_expired_locked 120 limited "b" limited-IsValid

length-set-le_example : length (Ttl.set limited "c" 3 (pos 5) 103 103).items ≤ 2
unfolding Ttl.set Ttl.set_max_entries Ttl.store Dict.insert Dict.lookup
length-set-le_example =
    Limit.length-set-le limited "c" 3 (pos 5) 103 103 2 refl (omega arith) (omega arith)

-- A Start comes between the two parts of a Stop: two goroutines run, and the wait of that Stop does not
-- return, since the new one counts too.
abbrev between : Reaper.Lifecycle
unfolding Reaper.start Reaper.stop_begin
between = Reaper.start (Reaper.stop_begin (Reaper.start Reaper.idle))

two_run : between.reapers ≡ 1 ∷ 0 ∷ []
unfolding between
two_run = refl

still_waits : (Reaper.close 0 between).reapers ≡ 1 ∷ []
unfolding between Reaper.close Reaper.without
still_waits = refl

between-Reach : Reaper.Reach between
unfolding between
between-Reach =
    Reaper.next (Reaper.next (Reaper.next Reaper.here (Reaper.starts _)) (Reaper.stops _))
      (Reaper.starts _)

reapers_running_example :
    (between.reapers ≡ Reaper.channels between.done ++ between.taken)
    × Reaper.Returns
        (Reaper.close_all (Reaper.stop_begin between).taken (Reaper.stop_begin between))
reapers_running_example = Reaper.reapers_running between between-Reach
