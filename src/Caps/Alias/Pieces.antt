-- ===== src/Caps/Alias/Pieces.antt =====
-- The alias `proc/<pid>` of kernel/src/caps/mod.rs keeps components clean.
use bedrock_stack.Base.{
  ℕ, ◌≡◌, refl, Option, none, some, List, [], ◌∷◌, Str, All, arith, ok, IsPiece, contains,
}
use bedrock_stack.Unispace.Path.{slash}
use bedrock_stack.Caps.{Caller}
use bedrock_stack.Caps.Alias.{canonicalize_proc_alias, alias_of, self, parse_pid, or_self}

pub self-IsPiece : IsPiece slash self
self-IsPiece = ((λ e. cc), unfold contains in refl)

-- The canonical form of clean components is clean.
alias-pieces :
    (who : Caller) (w : Str) (rest : List Str) (t : Option ℕ) (canon : Option (List Str))
    → IsPiece slash w
    → All (IsPiece slash) rest
    → alias_of who w rest t ≡ ok canon
    → (v : Str) → IsPiece slash v
    → All (IsPiece slash) (or_self canon (w ∷ v ∷ rest))
unfolding alias_of
alias-pieces who w rest t none hw hr e v hv = (hw, (hv, hr))
alias-pieces who w rest none (some cs) hw hr e v hv = cc
alias-pieces who w rest (some t) (some cs) hw hr e v hv =
    let same : cs ≡ w ∷ self ∷ rest = ground arith in rw same (hw, (self-IsPiece, hr))

pub canonical-pieces :
    (who : Caller) (cs : List Str) (canon : Option (List Str))
    → All (IsPiece slash) cs
    → canonicalize_proc_alias who cs ≡ ok canon
    → All (IsPiece slash) (or_self canon cs)
unfolding canonicalize_proc_alias
canonical-pieces who cs none a e = a
canonical-pieces who [] (some c) a e = cc
canonical-pieces who (w ∷ []) (some c) a e = cc
canonical-pieces who (w ∷ v ∷ rest) (some c) a e =
    alias-pieces who w rest (parse_pid v) (some c) a.0 a.1.1 (ground arith) v a.1.0
