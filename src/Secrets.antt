-- ===== src/Secrets.antt =====
-- internal/secrets/service.go over a file that holds the secrets (internal/files/secrets.go), and the
-- pairs that internal/secrets/replacer.go gives to strings.NewReplacer. `byte_length` is Go's len.
pub mod Served
use arch_agent.Base.Dict.{Dict, delete, insert, lookup}
use arch_agent.Base.Keys.{string_eq}
use arch_agent.Errors.{Error, Result, err, ok}
use arch_agent.Base.{List, Option, String, [], concat, if◌then◌else◌, ltb, none, some, ℕ, ◌∷◌}
use arch_agent.Base.Keys.{Eq, ◌==◌}

-- The secrets in memory, the file, and the errors of reading it and of writing it next.
pub record Secrets : Type 0 where
  pub secrets : Dict String String
  pub file : Dict String String
  pub load_error : Option Error
  pub save_error : Option Error

-- Reload, which returns no error even if the file cannot be read.
unfoldable pub reload_secrets : Secrets → Secrets
reload_secrets s = elim s.load_error [ some e ↦ s | none ↦ record s { secrets = s.file } ]

unfoldable pub get_secret : Secrets → String → Option String
get_secret s name = lookup name s.secrets

-- The map in memory is written, and stays changed if that fails.
abbrev pub save_secrets : Dict String String → Option Error → Secrets → Option Error × Secrets
save_secrets secrets (some e) s = (some e, record s { secrets = secrets })
save_secrets secrets none s = (none, record s { secrets = secrets; file = secrets })

unfoldable pub put_secret : String → String → Secrets → Option Error × Secrets
put_secret key value s = save_secrets (insert key value s.secrets) s.save_error s

unfoldable pub delete_secret : String → Secrets → Option Error × Secrets
delete_secret key s = save_secrets (delete key s.secrets) s.save_error s

-- sort.Slice by the length of the secret, the longest first; equal ones in any order.
unfoldable pub insert_longer :
    (String → ℕ) → String × String → List (String × String) → List (String × String)
insert_longer byte_length p [] = p ∷ []
insert_longer byte_length p (q ∷ qs) =
    let rest = insert_longer byte_length p qs in
    if ltb (byte_length p.1) (byte_length q.1) then q ∷ rest else p ∷ q ∷ qs

unfoldable pub sort_longest : (String → ℕ) → Dict String String → List (String × String)
unfolding insert_longer
sort_longest byte_length [] = []
sort_longest byte_length (p ∷ ps) = insert_longer byte_length p (sort_longest byte_length ps)

-- The secrets with their placeholders, without the empty ones.
unfoldable pub placeholders : List (String × String) → List (String × String)
placeholders [] = []
placeholders ((k, secret) ∷ ps) =
    let rest = placeholders ps in
    if secret == "" then rest else (secret, concat ("{ env." ∷ k ∷ " }" ∷ [])) ∷ rest

unfoldable pub replacer_pairs : (String → ℕ) → Secrets → List (String × String)
unfolding sort_longest placeholders
replacer_pairs byte_length s = placeholders (sort_longest byte_length s.secrets)
