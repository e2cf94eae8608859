-- ===== src/Core/Path.antt =====
-- Paths as `std::path` shows them: equality, `join`, `file_name`, and `partial_path` of
-- crates/cakesplitter-core/src/lib.rs.
use cake_splitter.Prelude.{
  ◌≡◌, refl, Bool, true, false, ◌&&◌, List, [], ◌∷◌, ◌++◌, arith, Option, none, some, Text, codes,
  text_eq, text_eq_iff, text_eq_refl, ap, ap₂,
}
use cake_splitter.Core.Error.{Component, prefix, normal, root_dir, cur_dir, parent_dir, FilePath}

abbrev bool_eq : Bool → Bool → Bool
bool_eq true b = b
bool_eq false true = false
bool_eq false false = true

component_eq : Component → Component → Bool
component_eq (prefix s) (prefix t) = text_eq s t
component_eq (normal s) (normal t) = text_eq s t
component_eq root_dir root_dir = true
component_eq cur_dir cur_dir = true
component_eq parent_dir parent_dir = true
component_eq _ _ = false

components_eq : List Component → List Component → Bool
components_eq [] [] = true
components_eq [] (d ∷ ds) = false
components_eq (c ∷ cs) [] = false
components_eq (c ∷ cs) (d ∷ ds) = component_eq c d && components_eq cs ds

-- `==` on `Path`
unfoldable pub path_eq : FilePath → FilePath → Bool
unfolding component_eq components_eq
path_eq p q = bool_eq p.is_absolute q.is_absolute && components_eq p.components q.components

component_eq→eq : (c d : Component) → component_eq c d ≡ true → c ≡ d
unfolding component_eq
component_eq→eq (prefix s) (prefix t) h = ap prefix ((text_eq_iff s t).0 h)
component_eq→eq (normal s) (normal t) h = ap normal ((text_eq_iff s t).0 h)
component_eq→eq root_dir root_dir h = refl
component_eq→eq cur_dir cur_dir h = refl
component_eq→eq parent_dir parent_dir h = refl
component_eq→eq _ _ h = cc

component_eq_refl : (c : Component) → component_eq c c ≡ true
unfolding component_eq
component_eq_refl (prefix s) = text_eq_refl s
component_eq_refl (normal s) = text_eq_refl s
component_eq_refl _ = refl

components_eq→eq : (cs ds : List Component) → components_eq cs ds ≡ true → cs ≡ ds
unfolding components_eq
components_eq→eq [] [] h = refl
components_eq→eq [] (d ∷ ds) h = cc
components_eq→eq (c ∷ cs) [] h = cc
components_eq→eq (c ∷ cs) (d ∷ ds) h =
    ap₂ (λ e es. e ∷ es) (component_eq→eq c d (ground arith))
      (components_eq→eq cs ds (ground arith))

components_eq_refl : (cs : List Component) → components_eq cs cs ≡ true
unfolding components_eq
components_eq_refl [] = refl
components_eq_refl (c ∷ cs) = ground (arith, component_eq_refl c, components_eq_refl cs)

bool_eq→eq : (a b : Bool) → bool_eq a b ≡ true → a ≡ b
bool_eq→eq a b h = ground arith

bool_eq_refl : (a : Bool) → bool_eq a a ≡ true
bool_eq_refl a = ground arith

pub path_eq→eq : (p q : FilePath) → path_eq p q ≡ true → p ≡ q
unfolding path_eq
path_eq→eq p q h =
    ap₂ (λ a cs. record { is_absolute = a; components = cs })
      (bool_eq→eq p.is_absolute q.is_absolute (ground arith))
      (components_eq→eq p.components q.components (ground arith))

pub path_eq_refl : (p : FilePath) → path_eq p p ≡ true
unfolding path_eq
path_eq_refl p = ground (arith, bool_eq_refl p.is_absolute, components_eq_refl p.components)

-- `path.join(name)` of a file name
unfoldable pub join : FilePath → Text → FilePath
join directory name = record directory { components = directory.components ++ normal name ∷ [] }

-- `path.parent().unwrap_or(".")`, in the components
without_last : List Component → List Component
without_last [] = []
without_last (c ∷ []) = []
without_last (c ∷ d ∷ cs) = c ∷ without_last (d ∷ cs)

unfoldable pub parent : FilePath → FilePath
unfolding without_last
parent path = record path { components = without_last path.components }

without_last-snoc : (cs : List Component) (c : Component) → without_last (cs ++ c ∷ []) ≡ cs
unfolding without_last
without_last-snoc [] c = refl
without_last-snoc (b ∷ []) c = refl
without_last-snoc (b ∷ d ∷ cs) c = ap (λ es. b ∷ es) (without_last-snoc (d ∷ cs) c)

-- the parent of an entry of a directory is the directory
pub parent-join : (directory : FilePath) (name : Text) → parent (join directory name) ≡ directory
unfolding parent join
parent-join directory name =
    ap (λ cs. record directory { components = cs })
      (without_last-snoc directory.components (normal name))

-- whether `path.parent()` is `Some`
has_component : List Component → Bool
has_component [] = false
has_component (prefix p ∷ []) = false
has_component (root_dir ∷ []) = false
has_component (c ∷ []) = true
has_component (c ∷ d ∷ cs) = has_component (d ∷ cs)

unfoldable pub has_parent : FilePath → Bool
unfolding has_component
has_parent path = has_component path.components

last_name : List Component → Option Text
last_name [] = none
last_name (normal name ∷ []) = some name
last_name (c ∷ []) = none
last_name (c ∷ d ∷ cs) = last_name (d ∷ cs)

-- `path.file_name().and_then(to_str)`
unfoldable pub file_name : FilePath → Option Text
unfolding last_name
file_name path = last_name path.components

last_name-snoc :
    (cs : List Component) (name : Text) → last_name (cs ++ normal name ∷ []) ≡ some name
unfolding last_name
last_name-snoc [] name = refl
last_name-snoc (b ∷ []) name = refl
last_name-snoc (b ∷ d ∷ cs) name = last_name-snoc (d ∷ cs) name

pub file_name-join :
    (directory : FilePath) (name : Text) → file_name (join directory name) ≡ some name
unfolding file_name join
file_name-join directory name = last_name-snoc directory.components name

-- the components after `.partial` is pushed onto the path's text
pushed : List Component → List Component
pushed [] = normal (codes ".partial") ∷ []
pushed (normal name ∷ []) = normal (name ++ codes ".partial") ∷ []
pushed (cur_dir ∷ []) = normal (codes "..partial") ∷ []
pushed (parent_dir ∷ []) = normal (codes "...partial") ∷ []
pushed (root_dir ∷ []) = root_dir ∷ normal (codes ".partial") ∷ []
pushed (prefix p ∷ []) = prefix p ∷ normal (codes ".partial") ∷ []
pushed (c ∷ d ∷ cs) = c ∷ pushed (d ∷ cs)

unfoldable pub partial_path : FilePath → FilePath
unfolding pushed
partial_path path = record path { components = pushed path.components }
