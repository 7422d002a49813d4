-- ===== src/Messages/Binding.antt =====
-- fluxrpc/transports/socket/messages.py: how the fields of a data class are bound by a dict of
-- arguments, and a dict with one key set or deleted.
use aiotinyrpc.Base.{
  ◌≡◌, refl, String, str_eq_refl, str_eq_iff, Bool, true, false, not, ◌&&◌, none, some, [], ◌∷◌,
  arith, subst, inl, inr,
}
use aiotinyrpc.Python.Value.{Value, Fields, end, field, get}
use aiotinyrpc.Python.Exc.{ok, Result-cases}
use aiotinyrpc.Messages.Types.{Params}
use aiotinyrpc.Messages.Document.{set_item, del_item, is_param, all_params, bind_params, given}

-- The attributes are the fields, one for one and in order.
abbrev pub HasParams : Params → Fields → Type 0
HasParams [] end = Unit
HasParams ((k, default) ∷ ps) (field j v d) = (j ≡ k) × HasParams ps d
HasParams _ _ = ⊥

pub bind_params-HasParams : (ps : Params) (d a : Fields) → bind_params ps d ≡ ok a → HasParams ps a
unfolding bind_params
bind_params-HasParams [] d a h = let built : end ≡ a = ground arith in subst (HasParams []) built tt
bind_params-HasParams ((k, default) ∷ ps) d a h = elim (Result-cases (given (get d k) default)) [
  | inr (e, he) ↦ absurd (ground arith)
  | inl (v, hv) ↦ elim (Result-cases (bind_params ps d)) [
    | inr (e, he) ↦ absurd (ground arith)
    | inl (rest, hr) ↦
        let built : field k v rest ≡ a = ground arith in
        subst (HasParams ((k, default) ∷ ps)) built (refl, bind_params-HasParams ps d rest hr)
  ]
]

pub del_item-set_item :
    (k : String) (v : Value) (d : Fields) → get d k ≡ none → del_item k (set_item k v d) ≡ d
unfolding get set_item del_item
del_item-set_item k v end h = ground (arith, str_eq_refl k)
del_item-set_item k v (field j w d) h = ground (arith, del_item-set_item k v d)

pub get-set_item : (k : String) (v : Value) (d : Fields) → get (set_item k v d) k ≡ some v
unfolding get set_item
get-set_item k v end = ground (arith, str_eq_refl k)
get-set_item k v (field j w d) = ground (arith, get-set_item k v d)

pub get-HasParams :
    (k : String) (ps : Params) (d : Fields)
    → HasParams ps d
    → is_param k ps ≡ false
    → get d k ≡ none
unfolding get is_param
get-HasParams k [] end _ h = refl
get-HasParams k ((j, default) ∷ ps) (field i v d) (e, has) h =
    ground (arith, get-HasParams k ps d has)
get-HasParams k [] (field i v d) has h = absurd has
get-HasParams k ((j, default) ∷ ps) end has h = absurd has

pub all_params-HasParams :
    (qs ps : Params) (d : Fields)
    → ((k : String) → is_param k qs ≡ true → is_param k ps ≡ true)
    → HasParams qs d
    → all_params ps d ≡ true
unfolding all_params is_param
all_params-HasParams [] ps end sub has = refl
all_params-HasParams [] ps (field i v d) sub has = absurd has
all_params-HasParams ((j, default) ∷ qs) ps end sub has = absurd has
all_params-HasParams ((j, default) ∷ qs) ps (field i v d) sub (e, has) =
    let rest = all_params-HasParams qs ps d (λ k h. sub k (ground arith)) has in
    ground (arith, rest, sub j, str_eq_refl j)

-- No two fields have one name, and none is named `_type`.
unfoldable pub nodup : Params → Bool
unfolding is_param
nodup [] = true
nodup ((k, default) ∷ ps) = not (is_param k ps) && nodup ps

-- The document gives every field the value that it has among the attributes.
abbrev pub Agrees : Params → Fields → Fields → Type 0
Agrees [] a d = Unit
Agrees (p ∷ ps) end d = Unit
Agrees (p ∷ ps) (field j v a) d = (get d j ≡ some v) × Agrees ps a d

Agrees-field :
    (ps : Params) (a d : Fields) (k : String) (v : Value)
    → HasParams ps a
    → is_param k ps ≡ false
    → Agrees ps a d
    → Agrees ps a (field k v d)
unfolding is_param get
Agrees-field [] a d k v has h agrees = tt
Agrees-field ((j, default) ∷ ps) end d k v has h agrees = tt
Agrees-field ((j, default) ∷ ps) (field i w a) d k v (e, has) h (g, agrees) = (
  ground (arith, str_eq_iff k i, str_eq_iff j k),
  Agrees-field ps a d k v has (ground arith) agrees,
)

pub Agrees-refl : (ps : Params) (a : Fields) → HasParams ps a → nodup ps ≡ true → Agrees ps a a
unfolding nodup get
Agrees-refl [] a has h = tt
Agrees-refl ((j, default) ∷ ps) end has h = tt
Agrees-refl ((j, default) ∷ ps) (field i v a) (e, has) h = (
  ground (arith, str_eq_refl i),
  Agrees-field ps a a i v has (ground arith) (Agrees-refl ps a has (ground arith)),
)

pub bind_params-Agrees :
    (ps : Params) (a d : Fields) → HasParams ps a → Agrees ps a d → bind_params ps d ≡ ok a
unfolding bind_params
bind_params-Agrees [] end d has agrees = refl
bind_params-Agrees [] (field i v a) d has agrees = absurd has
bind_params-Agrees ((j, default) ∷ ps) end d has agrees = absurd has
bind_params-Agrees ((j, default) ∷ ps) (field i v a) d (e, has) (g, agrees) =
    ground (arith, bind_params-Agrees ps a d has agrees)
