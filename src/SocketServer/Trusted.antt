-- ===== src/SocketServer/Trusted.antt =====
-- Authentication over one handler of fluxrpc/transports/socket/server.py.
pub mod Handlers
use aiotinyrpc.Base.{
  String, str_eq_refl, none, ◌≡◌, refl, Bool, true, false, Option, Option-cases, Bool-cases, inl,
  inr, some, arith, sym, subst, ◌∙◌, if_cases,
}
use aiotinyrpc.Base.Dict.{lookup, lookup-erase}
use aiotinyrpc.Python.Exc.{Result, ok, err}
use aiotinyrpc.Messages.{Message, challenge_reply, Crypto, decrypt_message}
use aiotinyrpc.Auth.{Bitcoin, Provider, Reply, verify_auth}
use aiotinyrpc.SocketServer.{State, state_of, stop_timer}
use aiotinyrpc.SocketServer.Handlers.{
  begin_encryption, handle_encryption_message, handle_liveliness_message, handle_auth_message,
  with_auth, handle_forwarding_message,
}
use aiotinyrpc.SocketServer.Receive.{
  decrypted, Given, handle, process_message, readable, received, handle_pty_message,
  handle_file_stream_message,
}

-- A message that a peer has sent: it was read in clear or decrypted from one that was read.
-- `R` holds of the texts that came over the socket.
pub data IsReceived (c : Crypto) (R : String → Type 0) : Message → Type 0 where
  read : (text : String) (m : Message) → R text → c.deserialize text ≡ ok m → IsReceived c R m
  opened :
      (k : String) (m m' : Message)
      → IsReceived c R m
      → decrypt_message c k m ≡ ok m'
      → IsReceived c R m'

-- No challenge with this id is held any more.
abbrev pub Gone : String → State → Type 0
Gone i s = (p : Provider) → s.provider ≡ some p → lookup i p.challenges ≡ none

-- `D` holds of the ids and texts of the challenges. The peer has sent a reply to one of them, with a
-- signature of its text that is verified against the address, and that challenge is used up.
pub record Verified (c : Crypto) (b : Bitcoin) (R : String → Type 0) (D : String → String → Type 0)
    (a : Option String) (s : State) : Type 0 where
  pub reply : Reply
  pub to_sign : String
  pub was_received : IsReceived c R (challenge_reply reply)
  pub is_challenge : D reply.id to_sign
  pub is_signed : b.verify a to_sign reply.signature ≡ ok true
  pub is_spent : Gone reply.id s

pub record Holds (D : String → String → Type 0) (a : Option String) (s : State) : Type 0 where
  pub provider : Provider
  pub is_provider : s.provider ≡ some provider
  pub address : provider.address ≡ a
  pub challenges : (i t : String) → lookup i provider.challenges ≡ some t → D i t

pub record IsTrusted (c : Crypto) (b : Bitcoin) (R : String → Type 0) (D : String → String → Type 0)
    (a : Option String) (s : State) : Type 0 where
  pub held : Holds D a s
  pub trusted : s.peer.authenticated ≡ true → Verified c b R D a s

module _ (c : Crypto) (b : Bitcoin) (R : String → Type 0) (D : String → String → Type 0)
    (a : Option String) where
  pub Verified-Gone :
      (s s' : State)
      → ((i : String) → Gone i s → Gone i s')
      → Verified c b R D a s
      → Verified c b R D a s'
  Verified-Gone s s' mono v = record {
    reply = v.reply;
    to_sign = v.to_sign;
    was_received = v.was_received;
    is_challenge = v.is_challenge;
    is_signed = v.is_signed;
    is_spent = mono v.reply.id v.is_spent;
  }

  pub same-Gone : (s s' : State) → s'.provider ≡ s.provider → (i : String) → Gone i s → Gone i s'
  same-Gone s s' hp i h p e = h p (sym hp ∙ e)

  pub keeps :
      (s s' : State)
      → s'.provider ≡ s.provider
      → s'.peer.authenticated ≡ s.peer.authenticated
      → IsTrusted c b R D a s
      → IsTrusted c b R D a s'
  keeps s s' hp ha h = record {
    held = record {
      provider = h.held.provider;
      is_provider = hp ∙ h.held.is_provider;
      address = h.held.address;
      challenges = h.held.challenges;
    };
    trusted = λ t. Verified-Gone s s' (same-Gone s s' hp) (h.trusted (sym ha ∙ t));
  }

  verify_auth_lem :
      (p : Provider) (r : Reply)
      → (verify_auth b p r).0 ≡ ok true
      → (t : String) × (lookup r.id p.challenges ≡ some t)
        × (b.verify p.address t r.signature ≡ ok true)
  unfolding verify_auth
  verify_auth_lem p r h = elim (Option-cases (lookup r.id p.challenges)) [
    | inl e ↦ ground arith
    | inr (t, e) ↦ (t, e, ground arith)
  ]

  abbrev pub replaced : State → Result Bool → Provider → State
  replaced s v p = state_of (with_auth b s (v, p))

  pub replaced-Gone :
      (s : State) (v : Result Bool) (p : Provider) (i : String)
      → lookup i p.challenges ≡ none
      → Gone i (replaced s v p)
  replaced-Gone s (err e) p i h q k = ground (arith, h)
  replaced-Gone s (ok true) p i h q k = ground (arith, h)
  replaced-Gone s (ok false) p i h q k = ground (arith, h)

  pub IsTrusted-with_auth :
      (s : State) (v : Result Bool) (p : Provider)
      → p.address ≡ a
      → ((i t : String) → lookup i p.challenges ≡ some t → D i t)
      → (v ≡ ok true → Verified c b R D a (replaced s v p))
      → ((i : String) → Gone i s → lookup i p.challenges ≡ none)
      → IsTrusted c b R D a s
      → IsTrusted c b R D a (replaced s v p)
  IsTrusted-with_auth s (err e) p same own proved less h = record {
    held = record { provider = p; is_provider = refl; address = same; challenges = own };
    trusted = λ t.
        Verified-Gone s (replaced s (err e) p) (λ i g. replaced-Gone s (err e) p i (less i g))
          (h.trusted t);
  }
  IsTrusted-with_auth s (ok true) p same own proved less h = record {
    held = record { provider = p; is_provider = refl; address = same; challenges = own };
    trusted = λ t. proved refl;
  }
  IsTrusted-with_auth s (ok false) p same own proved less h = record {
    held = record { provider = p; is_provider = refl; address = same; challenges = own };
    trusted = λ t. cc t;
  }

  pub address-verify_auth : (p : Provider) (r : Reply) → (verify_auth b p r).1.address ≡ p.address
  unfolding verify_auth
  address-verify_auth p r = refl

  pub challenges-verify_auth :
      (p : Provider) (r : Reply) (i t : String)
      → lookup i (verify_auth b p r).1.challenges ≡ some t
      → lookup i p.challenges ≡ some t
  unfolding verify_auth
  challenges-verify_auth p r i t h = ground (arith, lookup-erase r.id i p.challenges)

  pub none-verify_auth :
      (p : Provider) (r : Reply) (i : String)
      → lookup i p.challenges ≡ none
      → lookup i (verify_auth b p r).1.challenges ≡ none
  unfolding verify_auth
  none-verify_auth p r i h = ground (arith, lookup-erase r.id i p.challenges)

  spent-verify_auth :
      (p : Provider) (r : Reply) → lookup r.id (verify_auth b p r).1.challenges ≡ none
  unfolding verify_auth
  spent-verify_auth p r = ground (arith, lookup-erase r.id r.id p.challenges, str_eq_refl r.id)

  -- The state that `verify_auth` leads to.
  abbrev pub after : Reply → Provider → State → State
  after r p s = replaced (stop_timer s) (verify_auth b p r).0 (verify_auth b p r).1

  pub proof_of :
      (p : Provider) (r : Reply) (s : State)
      → p.address ≡ a
      → ((i t : String) → lookup i p.challenges ≡ some t → D i t)
      → IsReceived c R (challenge_reply r)
      → (verify_auth b p r).0 ≡ ok true
      → Verified c b R D a (after r p s)
  proof_of p r s same own came h =
      let (t, known, v) = verify_auth_lem p r h in
      record {
        reply = r;
        to_sign = t;
        was_received = came;
        is_challenge = own r.id t known;
        is_signed = subst (λ x. b.verify x t r.signature ≡ ok true) same v;
        is_spent =
            replaced-Gone (stop_timer s) (verify_auth b p r).0 (verify_auth b p r).1 r.id
              (spent-verify_auth p r);
      }
