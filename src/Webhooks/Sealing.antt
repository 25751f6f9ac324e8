-- ===== src/Webhooks/Sealing.antt =====
-- What the sender gets of a destination that was made or changed (destination-service.js, webhook-rules.js).
use nuvrion.Common.{
  ℕ, String, Bool, true, false, ◌&&◌, ◌||◌, not, Option, none, some, any, is_some, str_eq, ltb,
  ◌==◌, ◌≡◌, refl, sym, ap, ap₂, ◌∙◌, subst, ◌⊎◌, inl, inr, Bool-cases, Option-cases, get, put,
  get-put_self, or_else, arith,
}
use nuvrion.Common.Results.{Result, ok, err, ◌>>=◌, >>=-eq-ok, refuse_if-eq-ok}
use nuvrion.Common.Text.{codes, units, trim, is_space}
use nuvrion.Common.Json.{Json, to_text}
use nuvrion.Webhooks.Rules.{Destination}
use nuvrion.Webhooks.Queue.{Service, persist}
use nuvrion.Webhooks.Addresses.{Parts, plain, ipv4_parts, check_address_allowed}
use nuvrion.Webhooks.Blocks.{
  is_within, address_of, forbidden_blocks, loopback_blocks, private_blocks,
  check_address_allowed-blocks,
}
use nuvrion.Webhooks.Requests.{
  Address, Means, WebhookError, Change, parse_change, check_address, check_text, host_of,
  is_admitted, not_https, credentials, no_host, refused, no_address, long_address, spaces, url_max,
  is_hidden, parse_webhook_url,
}
use nuvrion.Webhooks.Destinations.{
  Secrets, Cipher, Refusal, name_exists, version_conflict, context, read_ok, name_taken, secrets_of,
  changed_secrets, changed_hint, changed, unsealed, update_item, update_destination,
}

read_ok-eq-ok : {A : Type 0} (r : Result WebhookError A) (a : A) → read_ok r ≡ ok a → r ≡ ok a
unfolding read_ok
read_ok-eq-ok (err e) a h = cc
read_ok-eq-ok (ok b) a h = cc

either : (a b : Bool) → (not a && not b) ≡ false → (a ≡ true) ⊎ (b ≡ true)
either true b h = inl refl
either false true h = inr refl
either false false h = absurd (cc)

neither : (a b : Bool) → (not a || not b) ≡ false → (a ≡ true) × (b ≡ true)
neither true true h = (refl, refl)
neither true false h = absurd (cc)
neither false b h = absurd (cc)

-- The scheme, the credentials and the host of an address are as the rules want them.
abbrev IsSafe : Means → Address → Type 0
IsSafe means url =
    ((str_eq url.protocol "https:" ≡ true)
      ⊎ ((str_eq url.protocol "http:" && means.allow_http) ≡ true))
    × ((str_eq url.username "" ≡ true) × (str_eq url.password "" ≡ true))
    × (((means.net.is_ip (host_of (codes url.hostname)) == 0) ≡ true)
        ⊎ (is_admitted (check_address_allowed means.net (host_of (codes url.hostname)) means.policy)
            ≡ true))

module _ (means : Means) where
  check_address-IsSafe :
      (url found : Address) → check_address means url ≡ ok found → (url ≡ found) × IsSafe means url
  unfolding check_address
  check_address-IsSafe url found h =
      let host = host_of (codes url.hostname) in
      let admission = check_address_allowed means.net host means.policy in
      let (a, h1) =
        refuse_if-eq-ok
          (not (str_eq url.protocol "https:")
            && not (str_eq url.protocol "http:" && means.allow_http))
          not_https _ h in
      let (b, h2) =
        refuse_if-eq-ok (not (str_eq url.username "") || not (str_eq url.password "")) credentials _
          h1 in
      let (_, h3) = refuse_if-eq-ok (str_eq url.hostname "") no_host _ h2 in
      let (c, made) =
        refuse_if-eq-ok (not (means.net.is_ip host == 0) && not (is_admitted admission))
          (refused admission) (ok url) h3 in
      (cc, (either _ _ a, neither _ _ b, either _ _ c))

  parse_webhook_url-IsSafe :
      (raw : Option Json) (url : Address) → parse_webhook_url means raw ≡ ok url → IsSafe means url
  unfolding parse_webhook_url check_text
  parse_webhook_url-IsSafe raw url h =
      let s = trim (to_text means.platform raw) in
      let (_, h1) = refuse_if-eq-ok (str_eq s "") no_address _ h in
      let (_, h2) = refuse_if-eq-ok (ltb url_max (units s)) long_address _ h1 in
      let (_, h3) = refuse_if-eq-ok (any (λ c. is_hidden c || is_space c) (codes s)) spaces _ h2 in
      elim (Option-cases (means.url s)) [
        | inl e ↦ absurd (cc)
        | inr (u, e) ↦
            let checked : check_address means u ≡ ok url = cc in
            let (same, safe) = check_address-IsSafe u url checked in subst (IsSafe means) same safe
      ]

  -- An address that is accepted is https, or http where the installation allows it; and if its host is an IPv4
  -- address, as it is or mapped into IPv6 in dotted form, that lies in none of the blocks for unspecified, link-local,
  -- multicast and reserved addresses, nor in the loopback block unless the policy allows it, nor in a private block if
  -- the policy blocks these.
  pub parse_webhook_url-unblocked :
      (raw : Option Json) (url : Address) (p : Parts)
      → parse_webhook_url means raw ≡ ok url
      → (means.net.is_ip (host_of (codes url.hostname)) == 0) ≡ false
      → means.net.is_ip (plain means.net (host_of (codes url.hostname))) ≡ 4
      → ipv4_parts means.net (plain means.net (host_of (codes url.hostname))) ≡ some p
      → (any (is_within (address_of p)) forbidden_blocks ≡ false)
        × ((not means.policy.allow_loopback && any (is_within (address_of p)) loopback_blocks)
            ≡ false)
        × ((means.policy.block_private && any (is_within (address_of p)) private_blocks) ≡ false)
        × ((str_eq url.protocol "https:" ≡ true) ⊎ (means.allow_http ≡ true))
  unfolding nuvrion.Webhooks.Blocks.is_admitted is_admitted
  parse_webhook_url-unblocked raw url p h literal v e =
      let (scheme, _, host) = parse_webhook_url-IsSafe raw url h in
      let allowed = admitted_host host literal in
      let blocks = check_address_allowed-blocks means.net _ means.policy p v e in
      let (a, b, c) = none_of _ _ _ (sym blocks ∙ allowed) in (a, b, c, scheme_of scheme)
    where
      admitted_host : {b c : Bool} → (b ≡ true) ⊎ (c ≡ true) → b ≡ false → c ≡ true
      admitted_host (inl q) r = absurd (cc)
      admitted_host (inr q) r = q

      none_of :
          (x y z : Bool) → not (x || (y || z)) ≡ true → (x ≡ false) × (y ≡ false) × (z ≡ false)
      none_of false false false q = (refl, refl, refl)
      none_of true y z q = absurd (cc)
      none_of false true z q = absurd (cc)
      none_of false false true q = absurd (cc)

      scheme_of :
          {b : Bool}
          → (b ≡ true) ⊎ ((str_eq url.protocol "http:" && means.allow_http) ≡ true)
          → (b ≡ true) ⊎ (means.allow_http ≡ true)
      scheme_of (inl q) = inl q
      scheme_of (inr q) = inr (ground arith)

-- A cipher reads what it sealed of some secrets for a destination.
abbrev pub Reads : Cipher → String → Secrets → Type 0
Reads cipher id x = cipher.decrypt (cipher.encrypt x (context id)) (context id) ≡ some x

-- The address and the signing secret that a change gives, and those from before for what it does not give.
abbrev pub secrets_given : Change → Secrets → Secrets
secrets_given change old = record {
  url = elim change.url [ none ↦ old.url | some url ↦ url ];
  signing_secret = elim change.signing_secret [ none ↦ old.signing_secret | some secret ↦ secret ];
}

module _ (means : Means) (cipher : Cipher) where
  changed_secrets-given :
      (change : Change) (old : Secrets)
      → changed_secrets means cipher change old ≡ secrets_given change old
  unfolding changed_secrets
  changed_secrets-given change old = same change.url change.signing_secret
    where
      same :
          (url : Option String) (secret : Option (Option String))
          → ◌≡◌ {A = Secrets}
              (record {
                url = or_else url old.url;
                signing_secret = or_else secret old.signing_secret;
              })
              (record {
                url = elim url [ none ↦ old.url | some u ↦ u ];
                signing_secret = elim secret [ none ↦ old.signing_secret | some u ↦ u ];
              })
      same none none = refl
      same none (some u) = refl
      same (some u) none = refl
      same (some u) (some v) = refl

  decrypt-changed :
      (id : String) (change : Change) (old : Secrets) (hint : String) (now : ℕ) (item : Destination)
      → cipher.decrypt item.secret (context id) ≡ some old
      → Reads cipher id (changed_secrets means cipher change old)
      → cipher.decrypt (changed means cipher id change old hint now item).secret (context id)
        ≡ some (changed_secrets means cipher change old)
  unfolding changed changed_secrets
  decrypt-changed id change old hint now item h seals =
      elim (Bool-cases (is_some change.url || is_some change.signing_secret)) [
        | inl e ↦ rw e seals
        | inr e ↦ rw e (h ∙ ap some (unchanged change.url change.signing_secret e))
      ]
    where
      unchanged :
          (url : Option String) (secret : Option (Option String))
          → (is_some url || is_some secret) ≡ false
          → old ≡ record {
            url = or_else url old.url;
            signing_secret = or_else secret old.signing_secret;
          }
      unchanged none none q = refl
      unchanged (some u) secret q = absurd (cc)
      unchanged none (some u) q = absurd (cc)

  secrets_of-persist :
      (id : String) (item : Destination) (s : Service)
      → secrets_of means cipher id
          (persist (record s { destinations = put id item s.destinations }))
        ≡ some (cipher.decrypt item.secret (context id))
  unfolding secrets_of persist
  secrets_of-persist id item s = ground (arith, get-put_self id item s.destinations)

  pair_eq :
      {A B : Type 0} (a a' : A) (b b' : B)
      → ◌≡◌ {A = Result Refusal (A × B)} (ok (a, b)) (ok (a', b'))
      → a ≡ a'
  pair_eq a a' b b' h = cc

  same_read : {r : Result WebhookError Change} {c d : Change} → r ≡ ok c → r ≡ ok d → c ≡ d
  same_read h k = cc

  same_secrets :
      (found : Option Secrets) {a b : Secrets}
      → unsealed means cipher found ≡ ok a
      → found ≡ some b
      → a ≡ b
  unfolding unsealed
  same_secrets found h k = ground arith

  sealed_again :
      (id : String) {change : Change} {old : Secrets} (c : Change) (o : Secrets)
      → c ≡ change
      → o ≡ old
      → Reads cipher id (changed_secrets means cipher change old)
      → Reads cipher id (changed_secrets means cipher c o)
  sealed_again id c o e f =
      subst (λ x. Reads cipher id x) (sym (ap₂ (changed_secrets means cipher) e f))

  secrets_of-update_item :
      (id : String) (patch : Option Json) (expected_version now : ℕ) (s s' : Service)
      (item item' : Destination) (change : Change) (old : Secrets)
      → update_item means cipher id patch expected_version now s item ≡ ok (s', item')
      → parse_change means patch ≡ ok change
      → cipher.decrypt item.secret (context id) ≡ some old
      → Reads cipher id (changed_secrets means cipher change old)
      → secrets_of means cipher id s' ≡ some (some (changed_secrets means cipher change old))
  unfolding update_item
  secrets_of-update_item id patch expected_version now s s' item item' change old h read sealed
        seals =
      let (_, h1) =
        refuse_if-eq-ok (not (item.row_version == expected_version)) version_conflict _ h in
      let (c, e1, h2) = >>=-eq-ok (read_ok (parse_change means patch)) _ h1 in
      let (_, h3) =
        refuse_if-eq-ok
          (elim c.name [
            | none ↦ false
            | some name ↦ name_taken means cipher name (some id) s.destinations
          ])
          (name_exists (or_else c.name "")) _ h2 in
      let (old', e3, h4) =
        >>=-eq-ok (unsealed means cipher (cipher.decrypt item.secret (context id))) _ h3 in
      let (hint, _, made) = >>=-eq-ok (changed_hint means cipher c.url item.url_hint) _ h4 in
      let same_change : c ≡ change =
        same_read (read_ok-eq-ok (parse_change means patch) c e1) read in
      let same_old : old' ≡ old =
        same_secrets (cipher.decrypt item.secret (context id)) e3 sealed in
      let stored = changed means cipher id c old' hint now item in
      subst
        (λ x. secrets_of means cipher id x ≡ some (some (changed_secrets means cipher change old)))
        (pair_eq _ s' _ item' made)
        (secrets_of-persist id stored s
          ∙ ap some (
              subst
                (λ x.
                  cipher.decrypt stored.secret (context id)
                  ≡ some (changed_secrets means cipher x old))
                same_change
                (subst
                  (λ x.
                    cipher.decrypt stored.secret (context id)
                    ≡ some (changed_secrets means cipher c x))
                  same_old
                  (decrypt-changed id c old' hint now item (sealed ∙ ap some (sym same_old))
                    (sealed_again id c old' same_change same_old seals)))))

  -- After a change of a destination whose secret can be read, what the sender gets is the address and the
  -- signing secret that the change gives, and for what it does not give those from before, if the cipher reads
  -- whatever it sealed for the destination.
  pub secrets_of-update_destination :
      (id : String) (patch : Option Json) (expected_version now : ℕ) (s s' : Service)
      (item item' : Destination) (change : Change) (old : Secrets)
      → ((x : Secrets) → Reads cipher id x)
      → get id s.destinations ≡ some item
      → update_destination means cipher id patch expected_version now s ≡ ok (some (s', item'))
      → parse_change means patch ≡ ok change
      → cipher.decrypt item.secret (context id) ≡ some old
      → secrets_of means cipher id s' ≡ some (some (secrets_given change old))
  unfolding update_destination
  secrets_of-update_destination id patch expected_version now s s' item item' change old seals found
        h read sealed =
      secrets_of-update_item id patch expected_version now s s' item item' change old
        (updated (update_item means cipher id patch expected_version now s item) (cc)) read sealed
        (seals (changed_secrets means cipher change old))
      ∙ ap (λ x. some (some x)) (changed_secrets-given change old)
    where
      updated :
          (r : Result Refusal (Service × Destination))
          → (r >>= λ x. ok (some x)) ≡ ok (some (s', item'))
          → r ≡ ok (s', item')
      updated (err e) q = absurd (cc)
      updated (ok x) q = ground arith
