-- ===== src/Jsonrpc/Accepts.antt =====
-- The dicts that `_parse_subrequest` accepts, against a description of them. It is wider than the
-- request objects of JSON-RPC 2.0: an id may be any value, and `params` may be `None`.
use aiotinyrpc.Base.{
  String, str_eq_iff, ◌≡◌, sym, ◌∙◌, subst, inl, inr, refl, ap, Bool, true, not, Option, none, some,
  arith, Option-cases,
}
use aiotinyrpc.Python.Value.{
  Value, Values, Fields, null, bool, int, str, bytes, list, dict, nil, cons, end, field, get,
  has_key,
}
use aiotinyrpc.Python.Value
use aiotinyrpc.Python.Exc.{ok, bind-eq-ok, require-eq-ok}
use aiotinyrpc.Jsonrpc.{Request, version}
use aiotinyrpc.Jsonrpc.Parse.{
  request_key, all_keys, parse_dict, method_of, set_params, or_null, start, invalid,
}

-- The parameters are missing, `None`, a list or a dict.
pub data Params : Option Value → Values → Fields → Type 0 where
  missing : Params none nil end
  empty : Params (some null) nil end
  positional : (vs : Values) → Params (some (list vs)) vs end
  named : (d : Fields) → Params (some (dict d)) nil d

-- A dict with the four known keys at most, the version, a text as its method and such parameters,
-- with the request that it stands for. Its id may be any value.
pub record IsRequest (d : Fields) (r : Request) : Type 0 where
  pub known : (k : String) → has_key d k ≡ true → request_key k ≡ true
  pub version_text : get d "jsonrpc" ≡ some (str version)
  pub method_text : get d "method" ≡ some (str r.method)
  pub params : Params (get d "params") r.args r.kwargs
  pub notification : r.one_way ≡ not (has_key d "id")
  pub id : (v : Value) → get d "id" ≡ some v → r.unique_id ≡ v
  pub no_id : get d "id" ≡ none → r.unique_id ≡ null

all_keys-known :
    (p : String → Bool) (d : Fields) (k : String)
    → all_keys p d ≡ true
    → has_key d k ≡ true
    → p k ≡ true
unfolding has_key
all_keys-known p end k h e = cc
all_keys-known p (field j v d) k h e = ground (arith, all_keys-known p d k, str_eq_iff j k)

known-all_keys :
    (p : String → Bool) (d : Fields)
    → ((k : String) → has_key d k ≡ true → p k ≡ true)
    → all_keys p d ≡ true
unfolding has_key
known-all_keys p end h = refl
known-all_keys p (field j v d) h =
    ground
      (arith, h j, str_eq_iff j j, known-all_keys p d (λ k e. h k (ground (arith, str_eq_iff j k))))

py_eq-version : (v : Value) → Value.py_eq v (str version) ≡ true → v ≡ str version
unfolding Value.py_eq
py_eq-version (str s) h = ground (arith, str_eq_iff s version)
py_eq-version null h = cc
py_eq-version (bool b) h = cc
py_eq-version (int n) h = cc
py_eq-version (bytes b) h = cc
py_eq-version (list vs) h = cc
py_eq-version (dict d) h = cc

version_of :
    (o : Option Value) → Value.py_eq (or_null o) (str version) ≡ true → o ≡ some (str version)
version_of none h = absurd (null_ne h)
  where
    null_ne : Value.py_eq null (str version) ≡ true → ⊥
    null_ne e = cc (py_eq-version null e)
version_of (some v) h = ap some (py_eq-version v h)

Params-of :
    (d : Fields) (m : String) (r : Request) (o : Option Value)
    → set_params d (or_null o) (start d m) ≡ ok r
    → Params o r.args r.kwargs
Params-of d m r none h =
    let e : start d m ≡ r = ground arith in
    subst {A = Request} (λ q. Params none q.args q.kwargs) e missing
Params-of d m r (some null) h =
    let e : start d m ≡ r = ground arith in
    subst {A = Request} (λ q. Params (some null) q.args q.kwargs) e empty
Params-of d m r (some (list vs)) h =
    let e : record (start d m) { args = vs } ≡ r = ground arith in
    subst {A = Request} (λ q. Params (some (list vs)) q.args q.kwargs) e (positional vs)
Params-of d m r (some (dict kw)) h =
    let e : record (start d m) { kwargs = kw } ≡ r = ground arith in
    subst {A = Request} (λ q. Params (some (dict kw)) q.args q.kwargs) e (named kw)
Params-of d m r (some (bool b)) h = cc
Params-of d m r (some (int n)) h = cc
Params-of d m r (some (str t)) h = cc
Params-of d m r (some (bytes b)) h = cc

method_of_lem : (d : Fields) (m : String) → method_of d ≡ ok m → get d "method" ≡ some (str m)
method_of_lem d m h = ground arith

-- The steps of an accepted parse.
accepted :
    (d : Fields) (r : Request)
    → parse_dict d ≡ ok r
    → (m : String) × (all_keys request_key d ≡ true)
      × (Value.py_eq (or_null (get d "jsonrpc")) (str version) ≡ true)
      × (method_of d ≡ ok m)
      × (set_params d (or_null (get d "params")) (start d m) ≡ ok r)
unfolding parse_dict
accepted d r h =
    let (known, h1) = require-eq-ok (all_keys request_key d) (invalid d) _ h in
    let (versions, h2) =
      require-eq-ok (Value.py_eq (or_null (get d "jsonrpc")) (str version)) (invalid d) _ h1 in
    let (m, params, text) = bind-eq-ok (method_of d) _ h2 in (m, known, versions, text, params)

start-id :
    (d : Fields) (m : String) (v : Value) (r : Request)
    → set_params d v (start d m) ≡ ok r
    → (r.method ≡ m) × (r.one_way ≡ not (has_key d "id")) × (r.unique_id ≡ or_null (get d "id"))
start-id d m v r h = ground arith

-- The server accepts no other dict than one of this form, and the request
-- that it builds is the one that the dict stands for.
pub parse_dict_sound : (d : Fields) (r : Request) → parse_dict d ≡ ok r → IsRequest d r
parse_dict_sound d r h =
    let (m, known, versions, method_found, params) = accepted d r h in
    let (same, one_way, i) = start-id d m (or_null (get d "params")) r params in
    record {
      known = λ k e. all_keys-known request_key d k known e;
      version_text = version_of (get d "jsonrpc") versions;
      method_text = method_of_lem d m method_found ∙ ap (λ n. some (str n)) (sym same);
      params = Params-of d m r (get d "params") params;
      notification = one_way;
      id = λ v e. i ∙ ap or_null e;
      no_id = λ e. i ∙ ap or_null e;
    }

id_lem : (d : Fields) (r : Request) → IsRequest d r → r.unique_id ≡ or_null (get d "id")
id_lem d r q = elim (Option-cases (get d "id")) [
  | inl e ↦ q.no_id e ∙ ap or_null (sym e)
  | inr (v, e) ↦ q.id v e ∙ ap or_null (sym e)
]

set_params_lem :
    (d : Fields) (r : Request) {o : Option Value} {vs : Values} {kw : Fields}
    → Params o vs kw
    → set_params d (or_null o) (record r { args = nil; kwargs = end })
      ≡ ok (record r { args = vs; kwargs = kw })
set_params_lem d r missing = refl
set_params_lem d r empty = refl
set_params_lem d r (positional vs) = refl
set_params_lem d r (named kw) = refl

-- Every dict of this form is accepted.
pub parse_dict_complete : (d : Fields) (r : Request) → IsRequest d r → parse_dict d ≡ ok r
unfolding parse_dict
parse_dict_complete d r q = ground (
  arith,
  known-all_keys request_key d q.known,
  id_lem d r q,
  set_params_lem d r q.params,
  str_eq_iff version version,
)
