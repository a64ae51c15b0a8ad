-- ===== src/Tests/Evacceptor.antt =====
-- evpaxos/evacceptor.c over the in-memory storage.
use sciascid_libpaxos_d255f.Base.{◌-◌, ◌^◌, ◌≡◌, refl, false, some, List, [], ◌∷◌, arith}
use sciascid_libpaxos_d255f.Types.{Repeat, Message}
use sciascid_libpaxos_d255f.Storage.Mem
use sciascid_libpaxos_d255f.KHash.Assoc.{assoc}
use sciascid_libpaxos_d255f.Acceptor.{Acceptor}
use sciascid_libpaxos_d255f.Acceptor.Valid.{IsValid}
use sciascid_libpaxos_d255f.Acceptor.Steps.{Unchanged}
use sciascid_libpaxos_d255f.Evacceptor.{Output, to_peer, repeat_each, handle_repeat}
use sciascid_libpaxos_d255f.Evacceptor.Replaying.{
  Works, replays, handle_repeat_lem, repeat_each-endless,
}
use sciascid_libpaxos_d255f.Tests.Acceptor.{mem, laws, accepted_bar, with_bar, with_bar-IsValid}

mem-Works : Works mem laws
mem-Works = record { begins = λ h. refl; commits = λ h. refl }

-- The instances 1, 2 and 3.
abbrev one_to_three : Repeat
one_to_three = record { from = 1; to = 3 }

handle_repeat_lem_example :
    (a' : Acceptor mem) × (handle_repeat mem with_bar one_to_three
      ≡ some (replays mem laws with_bar 1 3, a'))
    × IsValid mem laws a'
    × Unchanged mem laws with_bar a'
handle_repeat_lem_example =
    handle_repeat_lem mem laws with_bar one_to_three mem-Works with_bar-IsValid (omega arith)

repeat_each-endless_example :
    (outs : List Output) × (a' : Acceptor mem) × (repeat_each mem 5 1 (2 ^ 32 - 1) with_bar
      ≡ some (outs, false, a'))
    × IsValid mem laws a'
    × Unchanged mem laws with_bar a'
repeat_each-endless_example =
    repeat_each-endless mem laws 5 1 with_bar with_bar-IsValid (omega arith)

-- Instance 1 holds "bar", the others nothing.
repeats_bar :
    handle_repeat mem with_bar one_to_three
    ≡ some (to_peer (Message.accepted accepted_bar) ∷ [], with_bar)
unfolding handle_repeat with_bar assoc Mem.get
repeats_bar = refl
