-- ===== src/Stores/Contract.antt =====
-- What the clients of a token store may rely on, and that the store in memory and the JSON file
-- both give it.
use edctranslation_public.Prelude.{
  String, ◌≡◌, refl, List, [], ◌==◌, string_eq, if◌then◌else◌, arith,
}
use edctranslation_public.Prelude.Dict
use edctranslation_public.Prelude.Errors.{ok}
use edctranslation_public.Json.{Runtime}
use edctranslation_public.Jobs.Files.{Codec}
use edctranslation_public.Auth.{Texts, AuthFailure}
use edctranslation_public.Auth.Sets.{IsFrozenset}
use edctranslation_public.Auth.Hashing.{Crypto}
use edctranslation_public.Auth.Tokens.{ApiTokenRecord, AuditEvent}
use edctranslation_public.Auth.Store
use edctranslation_public.Auth.Store.{File}
use edctranslation_public.Auth.Store.Laws.{Holds}
use edctranslation_public.Stores.{TokenStore, memory_tokens, save_token, get_token}

-- From the initial state on, a record is saved, found under its id, and hides no other.
pub record IsTokenStore {E S : Type 0} (store : TokenStore E S) (initial : S) : Type 1 where
  pub IsSound : S → Type 0
  pub initial-IsSound : IsSound initial
  pub save-result : (r : ApiTokenRecord) (s : S) → IsSound s → (store.save r s).0 ≡ ok r
  pub save-IsSound :
      (r : ApiTokenRecord) (s : S) → IsFrozenset r.scopes → IsSound s → IsSound (store.save r s).1
  pub get-save :
      (id : String) (r : ApiTokenRecord) (s : S)
      → IsFrozenset r.scopes
      → IsSound s
      → store.get id (store.save r s).1 ≡ (if r.token_id == id then ok r else store.get id s)

-- The dict in memory meets the contract of a token store.
pub memory_tokens-IsTokenStore : IsTokenStore memory_tokens []
unfolding save_token get_token
memory_tokens-IsTokenStore = record {
  IsSound = λ s. Unit;
  initial-IsSound = tt;
  save-result = λ r s h. refl;
  save-IsSound = λ r s h k. tt;
  get-save = λ id r s h k. ground (arith, Dict.lookup-insert id r.token_id r s);
}

module _ (py : Runtime) (library : Texts) (json : Codec) (lib : Crypto) where
  abbrev pub json_tokens : TokenStore AuthFailure (File py library json lib)
  json_tokens = record {
    save = Store.save_token py library json lib;
    list = λ tenant file. Store.lift (Store.list_tokens py library json lib tenant file);
    get = λ id file. Store.lift (Store.get_token py library json lib id file);
  }

  abbrev Shows : File py library json lib → Type 0
  Shows file =
      (rs : List ApiTokenRecord) × (es : List AuditEvent) × Holds py library json lib file rs es
