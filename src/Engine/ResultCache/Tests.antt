-- ===== src/Engine/ResultCache/Tests.antt =====
-- The result cache on concrete inputs (result_cache.cpp).
use infer_sched_distributed.Base.{
  ◌≡◌, refl, List, [], ◌∷◌, none, some, ok, lookup, erase, insert_or_assign, text_discrete,
}
use infer_sched_distributed.Engine.Lru.{remove_key}
use infer_sched_distributed.Engine.ResultCache.{ResultCache, init, evict, push, put, get}
use infer_sched_distributed.Engine.ResultCache.History.{
  Call, puts, gets, answers, spec_answers, answers-spec_answers,
}

program : Unit {0}
unfolding init evict push put get answers spec_answers lookup erase insert_or_assign remove_key
    text_discrete
program = tt

abbrev empty : ResultCache
empty = record { capacity = 2; recency = []; entries = []; hits = 0; misses = 0 }

init_two : init 2 ≡ ok empty
unfolding program
init_two = refl

abbrev history : List Call
history =
    puts "a" "1"
    ∷ puts "b" "2"
    ∷ gets "a"
    ∷ puts "c" "3"
    ∷ gets "b"
    ∷ gets "a"
    ∷ puts "a" "4"
    ∷ gets "a"
    ∷ []

-- `b` is evicted: `a` was used after it.
history-answers : answers empty history ≡ some "1" ∷ none ∷ some "1" ∷ some "4" ∷ []
unfolding program
history-answers = refl

answers-spec_answers_example : answers empty history ≡ spec_answers 2 [] history
answers-spec_answers_example = answers-spec_answers 2 empty history init_two
