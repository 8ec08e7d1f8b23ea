-- ===== src/Resolvers/Ec2/Walk.antt =====
-- The walk of lib/src/facts/resolvers/ec2_resolver.cc over a server that serves a tree.
use facter.Base.{
  ℕ, zero, suc, ◌<◌, String, ◌≡◌, refl, ◌∙◌, ap, arith, true, false, Option, some, List, [], ◌∷◌,
  ◌++◌, map, ◌==◌, is_empty_str, ◌<>◌, if◌then◌else◌, ltb, ◌=?◌,
}
use facter.Values.{Fields, string_value, map_value, end, add_field}
use facter.Execution.Command.{trim}
use facter.Text.{get_lines, pop_return, each_of, each_line}
use facter.Resolvers.Ec2.{
  replied, Service, Fetch, fetched, ◌>>=◌, ends_with_slash, trim_slashes, query_metadata_value,
  entry_name, visit_category, visit_name, visit, walk, query_metadata, is_ec2, resolve_ec2,
  ec2_adds, metadata_adds, userdata_adds, root_url, userdata_url,
}

-- The lines of a listing: `value` gives the name and the body, `unavailable` a name whose request
-- has that status, `category` the line, the name of the category and what is in it.
pub data Entries : Type 0 where
  no_entries : Entries
  blank : Entries → Entries
  credentials : String → Entries → Entries
  value : String → String → Entries → Entries
  unavailable : String → ℕ → String → Entries → Entries
  category : String → String → Entries → Entries → Entries

abbrev pub listing : Entries → List String
listing no_entries = []
listing (blank es) = "" ∷ listing es
listing (credentials line es) = line ∷ listing es
listing (value name body es) = name ∷ listing es
listing (unavailable name status body es) = name ∷ listing es
listing (category line name inner es) = line ∷ listing es

-- The metadata that the entries stand for; of two with one name the first counts.
abbrev pub fields_of : Entries → Fields → Fields
fields_of no_entries m = m
fields_of (blank es) m = fields_of es m
fields_of (credentials line es) m = fields_of es m
fields_of (value name body es) m =
    fields_of es (add_field name (some (string_value false (trim body))) m)
fields_of (unavailable name status body es) m = fields_of es m
fields_of (category line name inner es) m =
    fields_of es (add_field (trim_slashes name) (some (map_value false (fields_of inner end))) m)

abbrev pub max : ℕ → ℕ → ℕ
max a b = if ltb a b then b else a

-- How deep the categories nest.
abbrev pub depth : Entries → ℕ
depth no_entries = 0
depth (blank es) = depth es
depth (credentials line es) = depth es
depth (value name body es) = depth es
depth (unavailable name status body es) = depth es
depth (category line name inner es) = max (suc (depth inner)) (depth es)

module _ (s : Service) where
  abbrev pub IsEntry : String → String → Type 0
  IsEntry line name = (is_empty_str line ≡ false) × (entry_name s line ≡ name)

  abbrev pub IsValue : String → Type 0
  IsValue name =
      IsEntry name name × (name == "security-credentials/" ≡ false) × (ends_with_slash name ≡ false)

  -- The server answers with the entries under the URL.
  abbrev pub Serves : String → Entries → Type 0
  Serves url no_entries = Unit
  Serves url (blank es) = Serves url es
  Serves url (credentials line es) = IsEntry line "security-credentials/" × Serves url es
  Serves url (value name body es) =
      IsValue name × (s.get (url <> name) ≡ replied 200 body) × Serves url es
  Serves url (unavailable name status body es) =
      IsValue name
      × (s.get (url <> name) ≡ replied status body)
      × (status =? 200 ≡ false)
      × Serves url es
  Serves url (category line name inner es) =
      IsEntry line name
      × (name == "security-credentials/" ≡ false)
      × (ends_with_slash name ≡ true)
      × ((body : String) × (s.get (url <> name) ≡ replied 200 body)
          × (map pop_return (get_lines body) ≡ listing inner))
      × Serves (url <> name) inner
      × Serves url es

  -- What a query of the server has to give, for entries that nest less than `n` deep.
  abbrev Queries : ℕ → (String → Fields → Fetch) → Type 0
  Queries n query =
      (url body : String) (es : Entries) (m : Fields)
      → depth es < n
      → s.get url ≡ replied 200 body
      → map pop_return (get_lines body) ≡ listing es
      → Serves url es
      → query url m ≡ fetched (fields_of es m)

  module _ (query : String → Fields → Fetch) (url : String) where
    abbrev follow : List String → Fetch → Fetch
    follow [] found = found
    follow (line ∷ lines) found = follow lines (found >>= visit s query url line)

    each_of-follow :
        (lines : List String) (found : Fetch)
        → each_of (λ line st. (true, st >>= visit s query url line)) lines found
          ≡ follow (map pop_return lines) found
    unfolding each_of
    each_of-follow [] found = refl
    each_of-follow (line ∷ lines) found =
        each_of-follow lines (found >>= visit s query url (pop_return line))

    visit-value :
        (name : String) (m : Fields)
        → IsValue name
        → visit s query url name m ≡ query_metadata_value s m url name
    unfolding visit visit_name
    visit-value name m ((full, same), plain, open_end) = rw (full, same, plain, open_end) refl

    visit-category :
        (line name : String) (m inner : Fields)
        → IsEntry line name
        → (name == "security-credentials/") ≡ false
        → ends_with_slash name ≡ true
        → query (url <> name) end ≡ fetched inner
        → visit s query url line m
          ≡ fetched (add_field (trim_slashes name) (some (map_value false inner)) m)
    unfolding visit visit_name visit_category
    visit-category line name m inner (full, named) plain ends e =
        rw (full, named, plain, ends, e) refl

    visit-credentials :
        (line : String) (m : Fields)
        → is_empty_str line ≡ false
        → entry_name s line ≡ "security-credentials/"
        → visit s query url line m ≡ fetched m
    unfolding visit visit_name
    visit-credentials line m full named = rw (full, named) refl

    follow-listing :
        (n : ℕ) (es : Entries) (m : Fields)
        → Queries n query
        → depth es < suc n
        → Serves url es
        → follow (listing es) (fetched m) ≡ fetched (fields_of es m)
    unfolding query_metadata_value visit
    follow-listing n no_entries m q d h = refl
    follow-listing n (blank es) m q d h = follow-listing n es m q d h
    follow-listing n (credentials line es) m q d ((full, named), h) =
        ap (follow (listing es)) (visit-credentials line m full named) ∙ follow-listing n es m q d h
    follow-listing n (value name body es) m q d (here, e, h) =
        ap (follow (listing es)) (visit-value name m here ∙ rw e refl) ∙ follow-listing n es _ q d h
    follow-listing n (unavailable name status body es) m q d (here, e, u, h) =
        ap (follow (listing es)) (visit-value name m here ∙ rw (e, u) refl)
        ∙ follow-listing n es m q d h
    follow-listing n (category line name inner es) m q d (here, plain, ends, (body, e, l), i, h) =
        ap (follow (listing es)) (
          visit-category line name m (fields_of inner end) here plain ends
            (q (url <> name) body inner end (ground (arith, d)) e l i))
        ∙ follow-listing n es _ q (ground (arith, d)) h

  -- With more fuel than the categories nest deep, where the server answers a URL with the listing of
  -- entries and serves each of them, the walk from that URL ends and adds to the map what the entries
  -- stand for: values trimmed, categories as maps, without credentials and what is unavailable.
  query_metadata-Serves :
      (fuel : ℕ) (url body : String) (es : Entries) (m : Fields)
      → depth es < fuel
      → s.get url ≡ replied 200 body
      → map pop_return (get_lines body) ≡ listing es
      → Serves url es
      → query_metadata s fuel url m ≡ fetched (fields_of es m)
  unfolding query_metadata walk each_line
  query_metadata-Serves zero url body es m d e l h = absurd (omega (arith, d))
  query_metadata-Serves (suc fuel) url body es m d e l h = rw e (
      each_of-follow (query_metadata s fuel) url (get_lines body) (fetched m)
      ∙ rw l
          (follow-listing (query_metadata s fuel) url fuel es m (query_metadata-Serves fuel) d h))

  -- On a virtual machine of a kind that EC2 has, where the server answers the root with the listing of
  -- entries and serves each of them, and with more fuel than the categories nest deep, the resolver
  -- ends: it adds what the entries stand for, if that is not empty, and then the user data, if any.
  pub resolve_ec2-Serves :
      (fuel : ℕ) (vm : Option String) (body : String) (es : Entries)
      → is_ec2 s vm ≡ true
      → depth es < fuel
      → s.get root_url ≡ replied 200 body
      → map pop_return (get_lines body) ≡ listing es
      → Serves root_url es
      → resolve_ec2 s fuel vm
        ≡ some (metadata_adds s (fields_of es end) ++ userdata_adds s (s.get userdata_url))
  unfolding resolve_ec2 ec2_adds
  resolve_ec2-Serves fuel vm body es is d e l h =
      rw (is, query_metadata-Serves fuel root_url body es end d e l h) refl
