-- ===== src/Task/Lineage/Tests.antt =====
-- The lineage map at a small family (kernel/src/task/mod.rs).
use bedrock_stack.Base.{ℕ, ◌≡◌, ◌↔◌, ◌⊎◌, refl, true, false, [], ◌∷◌}
use bedrock_stack.Task.Lineage.{Lineage, insert, is_ancestor, lineage_chain, lineage_gc}
use bedrock_stack.Task.Lineage.Ancestors.{Above, is_ancestor_iff}

-- 4 is a child of 3, 3 of 2, 2 of 1; 8 and 9 are each other's parents.
abbrev family : Lineage
family = (4, 3) ∷ (3, 2) ∷ (2, 1) ∷ (8, 9) ∷ (9, 8) ∷ []

chain_of_4 : lineage_chain family 4 ≡ 3 ∷ 2 ∷ 1 ∷ []
unfolding lineage_chain
chain_of_4 = refl

cycle : is_ancestor family 1 8 ≡ false
unfolding is_ancestor
cycle = refl

inserted : lineage_chain (insert 4 9 family) 4 ≡ 9 ∷ 8 ∷ 9 ∷ []
unfolding lineage_chain insert
inserted = refl

collected : lineage_gc family (3 ∷ []) ≡ (3, 2) ∷ (2, 1) ∷ []
unfolding lineage_gc lineage_chain
collected = refl

is_ancestor_iff_example : (is_ancestor family 1 4 ≡ true) ↔ ((◌≡◌ {A = ℕ} 1 4) ⊎ Above family 1 4)
is_ancestor_iff_example = is_ancestor_iff family 1 4
