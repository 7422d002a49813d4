-- ===== src/Auth.antt =====
-- fluxrpc/auth/__init__.py: `SignatureAuthProvider`, which signs on one side and challenges on the
-- other. The package `bitcoin` and the random texts are parameters.
use aiotinyrpc.Base.{
  String, str_eq, str_eq_iff, ◌≡◌, ◌≢◌, Option-cases, inl, inr, Bool, true, false, Option, none,
  some, arith, if◌then◌else◌,
}
use aiotinyrpc.Base.Dict.{Dict, lookup, insert, erase, lookup-insert, lookup-erase}
use aiotinyrpc.Python.Value.{Values, nil}
use aiotinyrpc.Python.Exc.{Result, ok, err, raised, raised_text, value_error}

-- `ChallengeReplyMessage` and `ChallengeMessage`
pub record Reply : Type 0 where
  pub id : String
  pub signature : String
  pub close_connection : Bool

pub record Challenge : Type 0 where
  pub id : String
  pub to_sign : String
  pub address : String
  pub auth_required : Bool
  pub source : Values

-- What the code calls of the package `bitcoin`: the reading of a private key, where `none` is a
-- `Base58Error`, `SignMessage`, and `VerifyMessage`, which may raise.
pub record Bitcoin : Type 1 where
  pub Secret : Type 0
  pub read_secret : Option String → Option Secret
  pub sign : Secret → String → String
  pub verify : Option String → String → String → Result Bool

pub record Provider : Type 0 where
  pub key : Option String
  pub address : Option String
  pub challenges : Dict String

module _ (b : Bitcoin) where
  -- `auth_message`
  unfoldable pub auth_message : Provider → String → String → Result Reply
  unfolding raised
  auth_message p id to_sign = elim (b.read_secret p.key) [
    | none ↦ err (raised value_error nil)
    | some secret ↦
        ok (record { id = id; signature = b.sign secret to_sign; close_connection = false })
  ]

  abbrev verified : Provider → String → Option String → Result Bool
  verified p signature none = ok false
  verified p signature (some to_sign) =
      if str_eq to_sign "" then ok false else b.verify p.address to_sign signature

  -- `verify_auth`. The challenge is gone before its signature is verified.
  unfoldable pub verify_auth : Provider → Reply → Result Bool × Provider
  unfolding lookup erase
  verify_auth p r = (
    verified p r.signature (lookup r.id p.challenges),
    record p { challenges = erase r.id p.challenges },
  )

-- `generate_challenge` with the two texts that it draws
abbrev challenge_at :
    Provider → Challenge → String → String → Option String → Result (Challenge × Provider)
challenge_at p m id to_sign none = err (raised_text value_error "Address must be provided")
challenge_at p m id to_sign (some a) =
    if str_eq a ""
    then err (raised_text value_error "Address must be provided")
    else ok (
      record m { id = id; to_sign = to_sign; address = a },
      record p { challenges = insert id to_sign p.challenges },
    )

unfoldable pub generate_challenge :
    Provider → Challenge → String → String → Result (Challenge × Provider)
unfolding insert raised_text
generate_challenge p m id to_sign = challenge_at p m id to_sign p.address

-- A challenge that is made, and what the provider then holds.
challenge_at_lem :
    (p p' : Provider) (m m' : Challenge) (id to_sign : String) (a : Option String)
    → challenge_at p m id to_sign a ≡ ok (m', p')
    → (m'.id ≡ id)
      × (m'.to_sign ≡ to_sign)
      × (p'.challenges ≡ insert id to_sign p.challenges)
      × (p'.address ≡ p.address)
challenge_at_lem p p' m m' id to_sign none h = cc
challenge_at_lem p p' m m' id to_sign (some a) h = ground arith

module _ (b : Bitcoin) where
  auth_message_lem :
      (p : Provider) (id to_sign : String) (r : Reply)
      → auth_message b p id to_sign ≡ ok r
      → (sec : b.Secret) × (b.read_secret p.key ≡ some sec)
        × (r.id ≡ id)
        × (r.signature ≡ b.sign sec to_sign)
  unfolding auth_message
  auth_message_lem p id to_sign r h = elim (Option-cases (b.read_secret p.key)) [
    | inl e ↦ ground arith
    | inr (sec, e) ↦ (sec, e, ground arith, ground arith)
  ]

  -- The reply that a client with the key of the address makes to a challenge is verified, and no
  -- second reply to that challenge is.
  pub verify_auth-auth_message :
      (server server' client : Provider) (m m' : Challenge) (id to_sign : String) (r again : Reply)
      → ((sec : b.Secret) (t : String)
          → b.read_secret client.key ≡ some sec
          → b.verify server.address t (b.sign sec t) ≡ ok true)
      → generate_challenge server m id to_sign ≡ ok (m', server')
      → to_sign ≢ ""
      → auth_message b client m'.id m'.to_sign ≡ ok r
      → again.id ≡ id
      → ((verify_auth b server' r).0 ≡ ok true)
        × ((verify_auth b (verify_auth b server' r).1 again).0 ≡ ok false)
  unfolding generate_challenge verify_auth
  verify_auth-auth_message server server' client m m' id to_sign r again matches g n h same =
      let (hid, ht, hc, ha) = challenge_at_lem server server' m m' id to_sign server.address g in
      let (sec, hs, hr, hsig) = auth_message_lem client m'.id m'.to_sign r h in
      ground (
        arith,
        matches sec to_sign hs,
        lookup-insert id r.id to_sign server.challenges,
        lookup-erase r.id again.id server'.challenges,
        str_eq_iff id r.id,
        str_eq_iff r.id again.id,
        str_eq_iff to_sign "",
      )
