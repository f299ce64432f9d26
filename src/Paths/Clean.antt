-- ===== src/Paths/Clean.antt =====
-- crates/prek/src/fs.rs, `clean_path`: what a cleaned path looks like.
use prek.Prelude.{
  ◌≡◌, refl, sym, ap, subst, ◌∙◌, List, [], ◌∷◌, ◌++◌, map, append_assoc, Bytes, All,
}
use mathlib.Core.List.{reverse, reverse-reverse, reverse-cons, reverse-append, map-append}
use prek.Paths.{
  Component, root_dir, cur_dir, parent_dir, normal, pop_parent, push_component, clean_loop, or_dot,
  clean_path,
}

-- The last component is "..", or there is none.
abbrev Open : List Component → Type 0
Open [] = Unit
Open (parent_dir ∷ out) = Unit
Open (root_dir ∷ out) = ⊥
Open (cur_dir ∷ out) = ⊥
Open (normal name ∷ out) = ⊥

-- What the loop may hold, the last component first: no ".", and ".." only at the front or after another.
abbrev Kept : List Component → Type 0
Kept [] = Unit
Kept (normal name ∷ out) = Kept out
Kept (root_dir ∷ out) = Kept out
Kept (cur_dir ∷ out) = ⊥
Kept (parent_dir ∷ out) = Open out × Kept out

pop_parent-Kept : (out : List Component) → Kept out → Kept (pop_parent out)
pop_parent-Kept [] k = (tt, tt)
pop_parent-Kept (normal name ∷ out) k = k
pop_parent-Kept (root_dir ∷ out) k = k
pop_parent-Kept (cur_dir ∷ out) k = absurd k
pop_parent-Kept (parent_dir ∷ out) k = (tt, k)

push_component-Kept :
    (out : List Component) (c : Component) → Kept out → Kept (push_component out c)
unfolding push_component
push_component-Kept out cur_dir k = k
push_component-Kept out parent_dir k = pop_parent-Kept out k
push_component-Kept out root_dir k = k
push_component-Kept out (normal name) k = k

clean_loop-Kept : (path out : List Component) → Kept out → Kept (clean_loop out path)
unfolding clean_loop
clean_loop-Kept [] out k = k
clean_loop-Kept (c ∷ path) out k =
    clean_loop-Kept path (push_component out c) (push_component-Kept out c k)

clean_loop-append :
    (p q out : List Component) → clean_loop out (p ++ q) ≡ clean_loop (clean_loop out p) q
unfolding clean_loop
clean_loop-append [] q out = refl
clean_loop-append (c ∷ p) q out = clean_loop-append p q (push_component out c)

pop_parent-Open : (out : List Component) → Open out → pop_parent out ≡ parent_dir ∷ out
pop_parent-Open [] o = refl
pop_parent-Open (parent_dir ∷ out) o = refl
pop_parent-Open (root_dir ∷ out) o = absurd o
pop_parent-Open (cur_dir ∷ out) o = absurd o
pop_parent-Open (normal name ∷ out) o = absurd o

push_component-same :
    (c : Component) (out : List Component) → Kept (c ∷ out) → push_component out c ≡ c ∷ out
unfolding push_component
push_component-same (normal name) out k = refl
push_component-same root_dir out k = refl
push_component-same cur_dir out k = absurd k
push_component-same parent_dir out k = pop_parent-Open out k.0

Kept-rest : (c : Component) (out : List Component) → Kept (c ∷ out) → Kept out
Kept-rest (normal name) out k = k
Kept-rest root_dir out k = k
Kept-rest cur_dir out k = absurd k
Kept-rest parent_dir out k = k.1

-- Such a list is what the loop makes of it.
clean_loop-same : (out : List Component) → Kept out → clean_loop [] (reverse out) ≡ out
unfolding clean_loop
clean_loop-same [] k = refl
clean_loop-same (c ∷ out) k =
    ap (clean_loop []) (reverse-cons c out)
    ∙ clean_loop-append (reverse out) (c ∷ []) []
    ∙ ap (λ l. push_component l c) (clean_loop-same out (Kept-rest c out k))
    ∙ push_component-same c out k

or_dot-same :
    (path : List Component)
    → or_dot (reverse (clean_loop [] (or_dot path))) ≡ or_dot (reverse (clean_loop [] path))
unfolding clean_loop push_component
or_dot-same [] = refl
or_dot-same (c ∷ path) = refl

pub clean_path_idem : (path : List Component) → clean_path (clean_path path) ≡ clean_path path
unfolding clean_path
clean_path_idem path =
    or_dot-same (reverse (clean_loop [] path))
    ∙ ap (λ l. or_dot (reverse l))
        (clean_loop-same (clean_loop [] path) (clean_loop-Kept path [] tt))

-- A component that stands behind the root of a path.
abbrev pub IsRelative : Component → Type 0
IsRelative root_dir = ⊥
IsRelative _ = Unit

-- The names of a path behind its root, the last first.
abbrev Rooted : List Component → Type 0
Rooted out = (ns : List Bytes) × (out ≡ map normal ns ++ root_dir ∷ [])

pop-Rooted : (ns : List Bytes) → Rooted (pop_parent (map normal ns ++ root_dir ∷ []))
pop-Rooted [] = ([], refl)
pop-Rooted (n ∷ ns) = (ns, refl)

push_component-Rooted :
    (c : Component) (ns : List Bytes)
    → IsRelative c
    → Rooted (push_component (map normal ns ++ root_dir ∷ []) c)
unfolding push_component
push_component-Rooted root_dir ns r = absurd r
push_component-Rooted cur_dir ns r = (ns, refl)
push_component-Rooted parent_dir ns r = pop-Rooted ns
push_component-Rooted (normal n) ns r = (n ∷ ns, refl)

clean_loop-Rooted :
    (path : List Component) (ns : List Bytes)
    → All IsRelative path
    → Rooted (clean_loop (map normal ns ++ root_dir ∷ []) path)
unfolding clean_loop
clean_loop-Rooted [] ns h = (ns, refl)
clean_loop-Rooted (c ∷ path) ns (r, h) =
    let (ms, e) = push_component-Rooted c ns r in
    subst (λ l. Rooted (clean_loop l path)) (sym e) (clean_loop-Rooted path ms h)

map-reverse : (ns : List Bytes) → reverse (map normal ns) ≡ map normal (reverse ns)
map-reverse [] = refl
map-reverse (n ∷ ns) =
    reverse-cons (normal n) (map normal ns)
    ∙ ap (λ l. l ++ normal n ∷ []) (map-reverse ns)
    ∙ sym (map-append normal (reverse ns) (n ∷ []))
    ∙ ap (map normal) (sym (reverse-cons n ns))

pub clean_path-root_dir :
    (path : List Component)
    → All IsRelative path
    → (ns : List Bytes) × (clean_path (root_dir ∷ path) ≡ root_dir ∷ map normal ns)
unfolding clean_path clean_loop push_component
clean_path-root_dir path h =
    let (ns, e) = clean_loop-Rooted path [] h in
    (
      reverse ns,
      ap (λ l. or_dot (reverse l)) e
          ∙ ap or_dot (reverse-append (map normal ns) (root_dir ∷ []))
          ∙ ap (λ l. root_dir ∷ l) (map-reverse ns),
    )

clean_loop-normal :
    (ns : List Bytes) (out : List Component)
    → clean_loop out (map normal ns) ≡ reverse (map normal ns) ++ out
unfolding clean_loop push_component
clean_loop-normal [] out = refl
clean_loop-normal (n ∷ ns) out =
    clean_loop-normal ns (normal n ∷ out)
    ∙ sym (append_assoc (reverse (map normal ns)) (normal n ∷ []) out)
    ∙ ap (λ l. l ++ out) (sym (reverse-cons (normal n) (map normal ns)))

-- Names behind a root are clean.
pub clean_path-normal :
    (ns : List Bytes) → clean_path (root_dir ∷ map normal ns) ≡ root_dir ∷ map normal ns
unfolding clean_path clean_loop push_component
clean_path-normal ns =
    ap (λ l. or_dot (reverse l)) (clean_loop-normal ns (root_dir ∷ []))
    ∙ ap or_dot (reverse-append (reverse (map normal ns)) (root_dir ∷ []))
    ∙ ap (λ l. root_dir ∷ l) (reverse-reverse (map normal ns))
