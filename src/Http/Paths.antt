-- ===== src/Http/Paths.antt =====
-- What normalize makes of the path of a request.
use libsimulator.Base.{◌≡◌, refl, false, List, [], ◌∷◌, ◌++◌, ◌==◌, if_rule, All, All-append}
use libsimulator.Http.{
  Text, slash, is_up, pop_back, push_element, split_path, join_path, skip_slash, normalize,
}

abbrev pub IsName : Text → Type 0
IsName e = is_up e ≡ false

pop_back-All : (es : List Text) → All IsName es → All IsName (pop_back es)
unfolding pop_back
pop_back-All [] h = tt
pop_back-All (e ∷ []) h = tt
pop_back-All (e ∷ f ∷ es) h = (h.0, pop_back-All (f ∷ es) h.1)

push_element-All : (es : List Text) (e : Text) → All IsName es → All IsName (push_element es e)
unfolding push_element
push_element-All es e h =
    if_rule (All IsName) (is_up e) (λ _. pop_back-All es h)
      (λ n. All-append IsName es (e ∷ []) h (n, tt))

abbrev pub Ends : List Text → Type 0
Ends es = (init : List Text) × (last : Text) × (es ≡ init ++ last ∷ []) × All IsName init

split_path-Ends :
    (element : Text) (es : List Text) (s : Text) → All IsName es → Ends (split_path element es s)
unfolding split_path
split_path-Ends element es [] h = (es, element, refl, h)
split_path-Ends element es (c ∷ cs) h =
    if_rule Ends (c == slash)
      (λ _. split_path-Ends [] (push_element es element) cs (push_element-All es element h))
      (λ _. split_path-Ends (element ++ c ∷ []) es cs h)

-- A normalized path is made of elements, each behind a slash, of which only the last can be "..".
pub normalize-Ends : (s : Text) → (es : List Text) × (normalize s ≡ join_path es) × Ends es
unfolding normalize
normalize-Ends s = (split_path [] [] (skip_slash s), refl, split_path-Ends [] [] (skip_slash s) tt)
