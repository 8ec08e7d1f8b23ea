-- ===== src/Resolvers/Ec2.antt =====
-- lib/src/facts/resolvers/ec2_resolver.cc: the walk over the metadata of an instance, and the
-- resolver. The HTTP client is a `Service`, which answers a request in the same way each time.
pub mod Walk
use Prim.Native.String.{[], ◌∷◌}
use facter.Base.{
  ℕ, zero, suc, String, Char, code, Bool, true, false, not, ◌&&◌, ◌||◌, Option, none, some, List,
  [], ◌∷◌, ◌++◌, ◌==◌, ◌=?◌, if◌then◌else◌, is_empty_str, ◌<>◌,
}
use facter.Values.{Fields, string_value, map_value, end, add_field, no_fields}
use facter.Collection.{Action, done, get_fact, Resolver}
use facter.Execution.Command.{trim}
use facter.Linux.Virtualization.{string_of}
use facter.Resolvers.{Adds, publish, starts_with}
use facter.Text.{each_line}

pub data Reply : Type 0 where
  -- the status code and the body
  replied : ℕ → String → Reply
  -- `http_request_exception`, and any other `runtime_error`
  unanswered failed : Reply

pub record Service : Type 0 where
  pub get : String → Reply
  -- what `^(\d+)=.*$` finds in a line
  pub array_index : String → Option String

-- The map that is filled, or the exception: the URL of a request that was not answered, or another
-- one. `exhausted`: the fuel of the model ran out.
pub data Fetch : Type 0 where
  fetched : Fields → Fetch
  not_answered : String → Fetch
  broken exhausted : Fetch

infixl 5 ◌>>=◌
abbrev pub ◌>>=◌ : Fetch → (Fields → Fetch) → Fetch
fetched m >>= f = f m
not_answered url >>= f = not_answered url
broken >>= f = broken
exhausted >>= f = exhausted

unfoldable pub ends_with_slash : String → Bool
ends_with_slash [] = false
ends_with_slash (c ∷ s) =
    let rest = ends_with_slash s in if is_empty_str s then code c =? b'/' else rest

-- `trim_right_if`
unfoldable pub trim_slashes : String → String
trim_slashes [] = []
trim_slashes (c ∷ s) =
    let rest = trim_slashes s in if is_empty_str rest && (code c =? b'/') then [] else c ∷ rest

abbrev pub root_url : String
root_url = "http://169.254.169.254/latest/meta-data/"

abbrev pub userdata_url : String
userdata_url = "http://169.254.169.254/latest/user-data/"

module _ (s : Service) where
  -- What is done with the body of a reply whose status is 200.
  abbrev pub with_body : String → Reply → Fields → (String → Fetch) → Fetch
  with_body url (replied status body) m f = if status =? 200 then f body else fetched m
  with_body url unanswered m f = not_answered url
  with_body url failed m f = broken

  unfoldable pub query_metadata_value : Fields → String → String → Fetch
  unfolding add_field trim
  query_metadata_value m url name =
      with_body (url <> name) (s.get (url <> name)) m
        λ body. fetched (add_field name (some (string_value false (trim body))) m)

  -- The name of a line, after the elements of an array were made categories.
  abbrev pub entry_name : String → String
  entry_name line = elim (s.array_index line) [ none ↦ line | some index ↦ index <> "/" ]

  module _ (query : String → Fields → Fetch) where
    unfoldable pub visit_category : String → String → Fields → Fetch
    unfolding add_field trim_slashes
    visit_category url name m = query (url <> name) end >>= λ child.
        fetched (add_field (trim_slashes name) (some (map_value false child)) m)

    unfoldable pub visit_name : String → String → Fields → Fetch
    unfolding query_metadata_value ends_with_slash visit_category
    visit_name url name m =
        if name == "security-credentials/"
        then fetched m
        else if not (ends_with_slash name)
        then query_metadata_value m url name
        else visit_category url name m

    -- The callback on a line.
    unfoldable pub visit : String → String → Fields → Fetch
    unfolding visit_name
    visit url line m = if is_empty_str line then fetched m else visit_name url (entry_name line) m

    unfoldable pub walk : String → String → Fields → Fetch
    unfolding visit each_line
    walk url body m = each_line (λ line found. (true, found >>= visit url line)) body (fetched m)

  -- Categories are followed `fuel` deep.
  unfoldable pub query_metadata : ℕ → String → Fields → Fetch
  unfolding walk
  query_metadata zero url m = exhausted
  query_metadata (suc fuel) url m =
      with_body url (s.get url) m (λ body. walk (query_metadata fuel) url body m)

  abbrev pub metadata_adds : Fields → Adds
  metadata_adds m = if no_fields m then [] else ("ec2_metadata", map_value false m) ∷ []

  abbrev pub userdata_adds : Reply → Adds
  userdata_adds (replied status body) =
      if status =? 200 then ("ec2_userdata", string_value false body) ∷ [] else []
  userdata_adds _ = []

  -- Where the first request is not answered, the user data is not asked for.
  unfoldable pub ec2_adds : Fetch → Option Adds
  ec2_adds (fetched m) = some (metadata_adds m ++ userdata_adds (s.get userdata_url))
  ec2_adds (not_answered url) =
      if url == root_url then some [] else some (userdata_adds (s.get userdata_url))
  ec2_adds broken = some (userdata_adds (s.get userdata_url))
  ec2_adds exhausted = none

  unfoldable pub is_ec2 : Option String → Bool
  unfolding starts_with
  is_ec2 none = false
  is_ec2 (some vm) = vm == "kvm" || starts_with "xen" vm

  -- What the resolver adds where the hypervisor is `vm`; `none` if the fuel does not suffice.
  unfoldable pub resolve_ec2 : ℕ → Option String → Option Adds
  unfolding query_metadata ec2_adds is_ec2
  resolve_ec2 fuel vm = if is_ec2 vm then ec2_adds (query_metadata fuel root_url end) else some []
