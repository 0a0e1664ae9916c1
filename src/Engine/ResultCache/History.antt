-- ===== src/Engine/ResultCache/History.antt =====
-- Histories of calls of the result cache (result_cache.cpp) against its specification.
use infer_sched_distributed.Base.{
  ℕ, ◌≡◌, refl, subst, ◌∙◌, arith, List, [], ◌∷◌, Option, String, ok, lookup, text_discrete,
}
use infer_sched_distributed.Engine.ResultCache.{ResultCache, init, evict, push, put, get}
use infer_sched_distributed.Engine.ResultCache.Refinement.{
  Shows, stored, used, init-Shows, put-Shows, get-Shows,
}

pub data Call : Type 0 where
  puts : String → String → Call
  gets : String → Call

-- The answers of the `Get`s of a history, in order.
unfoldable pub answers : ResultCache → List Call → List (Option String)
answers c [] = []
answers c (puts k v ∷ calls) = answers (put c k v) calls
answers c (gets k ∷ calls) = (get c k).0 ∷ answers (get c k).1 calls

-- The same on the specification: a list of pairs, most recent first, cut at the capacity.
unfoldable pub spec_answers : ℕ → List (String × String) → List Call → List (Option String)
spec_answers capacity l [] = []
spec_answers capacity l (puts k v ∷ calls) = spec_answers capacity (stored capacity k v l) calls
spec_answers capacity l (gets k ∷ calls) =
    lookup text_discrete k l ∷ spec_answers capacity (used k l) calls

capacity-put : (c : ResultCache) (k v : String) → (put c k v).capacity ≡ c.capacity
unfolding put push evict
capacity-put c k v = ground arith

capacity-get : (c : ResultCache) (k : String) → (get c k).1.capacity ≡ c.capacity
unfolding get
capacity-get c k = ground arith

answers_from :
    (capacity : ℕ) (c : ResultCache) (l : List (String × String)) (calls : List Call)
    → Shows c l
    → c.capacity ≡ capacity
    → answers c calls ≡ spec_answers capacity l calls
unfolding answers spec_answers
answers_from capacity c l [] s e = refl
answers_from capacity c l (puts k v ∷ calls) s e =
    answers_from capacity (put c k v) (stored capacity k v l) calls
      (subst (λ n. Shows (put c k v) (stored n k v l)) e (put-Shows c k l s v))
      (capacity-put c k v ∙ e)
answers_from capacity c l (gets k ∷ calls) s e =
    let (answer, shows, _) = get-Shows c k l s in
    cc (answer, answers_from capacity (get c k).1 (used k l) calls shows (capacity-get c k ∙ e))

-- A new cache answers every history of calls exactly as the bounded list of pairs does.
pub answers-spec_answers :
    (capacity : ℕ) (c : ResultCache) (calls : List Call)
    → init capacity ≡ ok c
    → answers c calls ≡ spec_answers capacity [] calls
answers-spec_answers capacity c calls e =
    answers_from capacity c [] calls (init-Shows capacity c e) (unfold init in ground arith)
