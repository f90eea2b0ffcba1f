-- ===== src/Kalloc/Tests.antt =====
-- The page allocator at small pools: runs of the code, and the theorems at concrete states.
use operation_system_project.Prelude.{ℕ, ◌≡◌, refl, [], ◌∷◌, Returns, arith}
use operation_system_project.Kalloc.{Kmem, freed, kinit, kalloc}
use operation_system_project.Kalloc.FreeList.{nil, cons, IsPage, IsFree, kinit-IsFree}

-- A kernel that leaves the last two pages of memory free.
abbrev end : ℕ
end = 0xffdabc

abbrev none_free : Kmem
none_free = record { freelist = 0; mem = λ _. 0 }

abbrev one_free : Kmem
one_free = freed 0xfff000 none_free

kinit_hands_out : (kalloc (freed 0xfff000 (freed 0xffe000 none_free))).0 ≡ 0xfff000
unfolding kalloc
kinit_hands_out = refl

none_free-IsFree : IsFree end none_free []
none_free-IsFree = record { chain = nil; pages = tt; distinct = tt }

top_in_pool : IsPage end 0xfff000
top_in_pool = omega arith

one_free-IsFree : IsFree end one_free (0xfff000 ∷ [])
one_free-IsFree = record {
  chain = cons (omega arith) refl nil;
  pages = (top_in_pool, tt);
  distinct = (tt, tt);
}

kinit-IsFree_example : Returns (λ k. IsFree end k (0xfff000 ∷ 0xffe000 ∷ [])) (kinit end none_free)
kinit-IsFree_example = kinit-IsFree end none_free (omega arith) (omega arith) refl
