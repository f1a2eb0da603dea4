-- ===== src/Unispace/Path/Tests.antt =====
-- The parser and printer at concrete paths (kernel/src/unispace/path.rs).
use bedrock_stack.Base.{◌≡◌, refl, some, List, [], ◌∷◌, All, Str, ok, err, contains, split, str_eq}
use bedrock_stack.Unispace.{invalid_path}
use bedrock_stack.Unispace.Path.{ParsedPath, parse, bad_component}
use bedrock_stack.Unispace.Path.Components.{IsComponent}
use bedrock_stack.Unispace.Path.Roundtrip.{print, parse-print}

abbrev a_b : List Str
a_b = (b'a' ∷ []) ∷ (b'b' ∷ []) ∷ []

-- `//a/b:m`
abbrev text : Str
text = b'/' ∷ b'/' ∷ b'a' ∷ b'/' ∷ b'b' ∷ b':' ∷ b'm' ∷ []

abbrev parsed : ParsedPath
parsed = record { components = a_b; method = some (b'm' ∷ []) }

parse-text : parse text ≡ ok parsed
unfolding parse split contains str_eq
parse-text = refl

-- `a:m/b`
selector_inside : parse (b'a' ∷ b':' ∷ b'm' ∷ b'/' ∷ b'b' ∷ []) ≡ err invalid_path
unfolding parse split contains str_eq
selector_inside = refl

dots : parse (b'a' ∷ b'/' ∷ b'.' ∷ b'.' ∷ []) ≡ err invalid_path
unfolding parse split contains str_eq
dots = refl

a_b-clean : All IsComponent a_b
unfolding contains bad_component str_eq
a_b-clean = ((((λ e. cc), refl), refl), ((((λ e. cc), refl), refl), tt))

parse-print_example : parse (print a_b (some (b'm' ∷ []))) ≡ ok parsed
parse-print_example =
    parse-print a_b (some (b'm' ∷ [])) (λ e. cc) a_b-clean ((λ e. cc), unfold contains in refl)
