-- ===== src/Python/Value.antt =====
-- The Python values that cross the wire: `None`, bool, int, str, bytes, list and dict (with text
-- keys, in insertion order). Floats and the special types of BSON are left out.
use aiotinyrpc.Base.{
  ℕ, suc, ◌==◌, String, str_eq, str_eq_refl, ◌≡◌, Bool, true, false, not, ◌&&◌, Option, none, some,
  List, [], ◌∷◌, arith, if◌then◌else◌,
}
use aiotinyrpc.Python.Int.{ℤ, pos, int_eq}

mutual
  pub data Value : Type 0 where
    null : Value
    bool : Bool → Value
    int : ℤ → Value
    str : String → Value
    bytes : List ℕ → Value
    list : Values → Value
    dict : Fields → Value

  pub data Values : Type 0 where
    nil : Values
    cons : Value → Values → Values

  pub data Fields : Type 0 where
    end : Fields
    field : String → Value → Fields → Fields

-- `d.get(k)`
unfoldable pub get : Fields → String → Option Value
get end k = none
get (field j v d) k = if str_eq j k then some v else get d k

-- `k in d`
unfoldable pub has_key : Fields → String → Bool
unfolding get
has_key d k = elim (get d k) [ none ↦ false | some v ↦ true ]

-- `list(d.keys())`
unfoldable pub keys : Fields → List String
keys end = []
keys (field k v d) = k ∷ keys d

abbrev pub size : Fields → ℕ
size end = 0
size (field k v d) = suc (size d)

abbrev pub length : Values → ℕ
length nil = 0
length (cons v vs) = suc (length vs)

abbrev same_bytes : List ℕ → List ℕ → Bool
same_bytes [] [] = true
same_bytes (a ∷ as') (b ∷ bs) = (a == b) && same_bytes as' bs
same_bytes _ _ = false

-- `True` is 1 and `False` is 0.
abbrev pub as_int : Bool → ℤ
as_int true = pos 1
as_int false = pos 0

-- Python's `==`. Two dicts are equal if they have as many keys and the same value at each.
unfoldable mutual
  pub py_eq : Value → Value → Bool
  py_eq null null = true
  py_eq (bool b) (bool c) = int_eq (as_int b) (as_int c)
  py_eq (bool b) (int n) = int_eq (as_int b) n
  py_eq (int n) (bool b) = int_eq n (as_int b)
  py_eq (int n) (int m) = int_eq n m
  py_eq (str s) (str t) = str_eq s t
  py_eq (bytes s) (bytes t) = same_bytes s t
  py_eq (list vs) (list ws) = all_eq vs ws
  py_eq (dict d) (dict e) = (size d == size e) && same_fields d e
  py_eq _ _ = false

  all_eq : Values → Values → Bool
  all_eq nil nil = true
  all_eq (cons v vs) (cons w ws) = py_eq v w && all_eq vs ws
  all_eq _ _ = false

  same_fields : Fields → Fields → Bool
  same_fields end e = true
  same_fields (field k v d) e =
      (elim (get e k) [ none ↦ false | some w ↦ py_eq v w ]) && same_fields d e

-- `bool(v)`
abbrev pub truthy_list : Values → Bool
truthy_list nil = false
truthy_list (cons v vs) = true

abbrev pub truthy_dict : Fields → Bool
truthy_dict end = false
truthy_dict (field k v d) = true

unfoldable pub truthy : Value → Bool
truthy null = false
truthy (bool b) = b
truthy (int n) = not (int_eq n (pos 0))
truthy (str s) = not (str_eq s "")
truthy (bytes s) = elim s [ [] ↦ false | _ ∷ _ ↦ true ]
truthy (list vs) = truthy_list vs
truthy (dict d) = truthy_dict d

abbrev pub is_null : Value → Bool
is_null null = true
is_null _ = false

-- A text or an integer, the values that serve as message ids.
abbrev pub IsId : Value → Type 0
IsId (int n) = Unit
IsId (str s) = Unit
IsId _ = ⊥

int_eq_refl : (n : ℤ) → int_eq n n ≡ true
int_eq_refl n = ground arith

pub py_eq_refl : (v : Value) → IsId v → py_eq v v ≡ true
unfolding py_eq
py_eq_refl (int n) h = int_eq_refl n
py_eq_refl (str s) h = str_eq_refl s
py_eq_refl null h = absurd h
py_eq_refl (bool b) h = absurd h
py_eq_refl (bytes s) h = absurd h
py_eq_refl (list vs) h = absurd h
py_eq_refl (dict d) h = absurd h
