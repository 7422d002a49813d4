-- ===== src/Client/Proxy.antt =====
-- fluxrpc/client.py, `RPCProxy`: what the functions that it returns call on the client.
use Prim.Native.String.{◌++◌ as ◌<>◌}
use aiotinyrpc.Base.{
  ℕ, String, Bool, true, false, ◌||◌, map, ◌∙◌, Option, none, List, [], ◌∷◌, ◌≡◌, refl, ap, arith,
}

-- The attributes of a proxy. `notify` and the others that it has are no remote names.
pub record Proxy : Type 0 where
  pub prefix : String
  pub one_way : Bool
  pub timeout : ℕ
  pub chan_id : Option ℕ

-- The arguments of `client.call`, less those of the method.
pub record Call : Type 0 where
  pub method : String
  pub one_way : Bool
  pub timeout : ℕ
  pub chan_id : Option ℕ

-- `__init__`, with the exclusive channel that it may ask for
abbrev pub new_proxy : String → Option ℕ → Proxy
new_proxy name channel = record { prefix = name; one_way = false; timeout = 45; chan_id = channel }

-- The proxy that `__init__` sets for a plugin.
unfoldable pub plugin_proxy : String → Proxy
plugin_proxy plugin = new_proxy plugin none

unfoldable pub notify : Proxy → Proxy
notify p = record p { one_way = true }

unfoldable pub set_timeout : ℕ → Proxy → Proxy
set_timeout n p = record p { timeout = n }

-- `__getattr__`
unfoldable pub get_attr : String → Proxy → Call × Proxy
get_attr name p = (
  record {
    method = p.prefix <> name;
    one_way = p.one_way;
    timeout = p.timeout;
    chan_id = p.chan_id;
  },
  record p { one_way = false },
)

-- What a program does with a proxy: it sets how the next call is made, or makes one.
pub data Setting : Type 0 where
  notifies : Setting
  sets_timeout : ℕ → Setting

abbrev set_proxy : Setting → Proxy → Proxy
set_proxy notifies p = notify p
set_proxy (sets_timeout n) p = set_timeout n p

abbrev pub set_all : List Setting → Proxy → Proxy
set_all [] p = p
set_all (s ∷ ss) p = set_all ss (set_proxy s p)

-- The calls of a program, each with the settings before it.
unfoldable pub calls : List (List Setting × String) → Proxy → List Call
unfolding notify set_timeout get_attr
calls [] p = []
calls ((ss, name) ∷ us) p = let (c, p') = get_attr name (set_all ss p) in c ∷ calls us p'

abbrev pub has_notify : List Setting → Bool
has_notify [] = false
has_notify (notifies ∷ ss) = true
has_notify (sets_timeout n ∷ ss) = has_notify ss

set_all-one_way :
    (ss : List Setting) (p : Proxy) → (set_all ss p).one_way ≡ p.one_way || has_notify ss
unfolding notify set_timeout
set_all-one_way [] p = ground arith
set_all-one_way (notifies ∷ ss) p = ground (arith, set_all-one_way ss (record p { one_way = true }))
set_all-one_way (sets_timeout n ∷ ss) p = set_all-one_way ss (record p { timeout = n })

set_all-prefix : (ss : List Setting) (p : Proxy) → (set_all ss p).prefix ≡ p.prefix
unfolding notify set_timeout
set_all-prefix [] p = refl
set_all-prefix (notifies ∷ ss) p = set_all-prefix ss (record p { one_way = true })
set_all-prefix (sets_timeout n ∷ ss) p = set_all-prefix ss (record p { timeout = n })

-- The method that a call names, and whether it is one way.
abbrev pub mode : Call → String × Bool
mode c = (c.method, c.one_way)

-- Whatever a program does with a proxy that is not set to notify: each call has the prefix before
-- its name, and is one way exactly if `notify` was called since the call before it.
pub calls-one_way :
    (us : List (List Setting × String)) (p : Proxy)
    → p.one_way ≡ false
    → map mode (calls us p) ≡ map (λ u. (p.prefix <> u.1, has_notify u.0)) us
unfolding calls
calls-one_way [] p e = refl
calls-one_way ((ss, name) ∷ us) p e =
    let q = set_all ss p in
    ap (λ t. (q.prefix <> name, q.one_way) ∷ t)
      (calls-one_way us (record q { one_way = false }) refl)
    ∙ ap (λ w. (w <> name, q.one_way) ∷ map (λ u. (w <> u.1, has_notify u.0)) us)
        (set_all-prefix ss p)
    ∙ ap (λ o. (p.prefix <> name, o) ∷ map (λ u. (p.prefix <> u.1, has_notify u.0)) us)
        (set_all-one_way ss p ∙ ap (λ x. x || has_notify ss) e)
