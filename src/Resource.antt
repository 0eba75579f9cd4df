-- ===== src/Resource.antt =====
-- src/vme/utils.c: the system resource types (numbered in src/vme/vme.h) and resource paths.
pub mod Path
pub mod Types
use vantiq_sdk_micro.Base.{
  ◌^◌, ◌&&◌, ℕ, zero, suc, ◌+◌, ◌%◌, Bool, true, false, ◌||◌, Option, none, some, List, [], ◌∷◌,
  ◌++◌, Bytes, codes, ltb, leb, if◌then◌else◌, is_some, size_mod, length, get_elem?, eq_bytes,
  snprintf,
}
use vantiq_sdk_micro.Memory.{M, pure, fault, ◌>>=◌, ◌>>◌, assert, allocate}
use vantiq_sdk_micro.Number.{decimal}

-- `vme_rstype_t`
pub data RsType : Type 0 where
  users types namespaces profiles scalars log_messages documents sources : RsType
  source_implementations topics rules configurations nodes node_configurations components : RsType
  procedures events tokens organizations series products audits situations projects groups : RsType
  activity_patterns collaborations collaboration_types pagesets services custom : RsType
  debug_configurations scheduled_events event_streams delegated_requests event_designs : RsType
  vail_scripts : RsType

-- the numbers that the enumeration gives its constants
pub index : RsType → ℕ
index users = 0
index types = 1
index namespaces = 2
index profiles = 3
index scalars = 4
index log_messages = 5
index documents = 6
index sources = 7
index source_implementations = 8
index topics = 9
index rules = 10
index configurations = 11
index nodes = 12
index node_configurations = 13
index components = 14
index procedures = 15
index events = 16
index tokens = 17
index organizations = 18
index series = 19
index products = 20
index audits = 21
index situations = 22
index projects = 23
index groups = 24
index activity_patterns = 25
index collaborations = 26
index collaboration_types = 27
index pagesets = 28
index services = 29
index custom = 30
index debug_configurations = 31
index scheduled_events = 32
index event_streams = 33
index delegated_requests = 34
index event_designs = 35
index vail_scripts = 36

-- `vme_system_types`
pub system_types : List Bytes
system_types =
    codes "users"
    ∷ codes "types"
    ∷ codes "namespaces"
    ∷ codes "profiles"
    ∷ codes "scalars"
    ∷ codes "logs"
    ∷ codes "documents"
    ∷ codes "sources"
    ∷ codes "sourceimpls"
    ∷ codes "topics"
    ∷ codes "rules"
    ∷ codes "configurations"
    ∷ codes "nodes"
    ∷ codes "nodeconfigs"
    ∷ codes "components"
    ∷ codes "procedures"
    ∷ codes "events"
    ∷ codes "tokens"
    ∷ codes "organizations"
    ∷ codes "series"
    ∷ codes "ArsProductMap"
    ∷ codes "audits"
    ∷ codes "situations"
    ∷ codes "projects"
    ∷ codes "groups"
    ∷ codes "activitypatterns"
    ∷ codes "collaborations"
    ∷ codes "collaborationtypes"
    ∷ codes "pagesets"
    ∷ codes "services"
    ∷ codes "custom"
    ∷ codes "debugconfigs"
    ∷ codes "scheduledevents"
    ∷ codes "eventstreams"
    ∷ codes "delegatedrequests"
    ∷ codes "eventdesigns"
    ∷ codes "scripts"
    ∷ []

abbrev pub n_system_types : ℕ
n_system_types = 37

-- the loop of `is_sys_type`, at the index `i`
find_type : Bytes → List Bytes → ℕ → Option ℕ
find_type rs [] i = none
find_type rs (t ∷ ts) i =
    let rest = find_type rs ts (i + 1) in if eq_bytes rs t then some i else rest

-- `none` stands for -1.
pub is_sys_type : Option Bytes → Option ℕ
unfolding find_type system_types
is_sys_type none = none
is_sys_type (some rs) = find_type rs system_types 0

some_or_fault : Option Bytes → M Bytes
some_or_fault none = λ w. fault
some_or_fault (some s) = pure s

-- The enumeration has no negative number.
pub mapto_rsname : ℕ → M Bytes
unfolding some_or_fault system_types
mapto_rsname type = do assert (ltb type n_system_types); some_or_fault (get_elem? system_types type)

-- LONGEST_PREFIX, with its terminator
abbrev longest_prefix_size : ℕ
longest_prefix_size = length (codes "/api/vxxx/resources/") + 1

abbrev pub text_of : Option Bytes → Bytes
text_of none = []
text_of (some s) = s

-- An empty text counts as none when the size is reckoned.
abbrev optional : Option Bytes → Option Bytes
optional (some []) = none
optional o = o

abbrev name_size : Option Bytes → ℕ
name_size none = 0
name_size (some s) = length s + 1

abbrev pub rsuri_size : Bytes → Option Bytes → Option Bytes → ℕ
rsuri_size ns name id =
    longest_prefix_size
    + (length ns + 1)
    + name_size (optional name)
    + length (text_of (optional id))
    + 1

-- `/api/v%d/resources/%s`
abbrev pub rsuri_head : ℕ → Bytes → Bytes
rsuri_head vers ns = codes "/api/v" ++ (decimal vers ++ (codes "/resources/" ++ ns))

-- What is printed by RSURI_PATH_NOID_NONAME or RSURI_PATH_PREFIX, whichever is chosen.
pub rsuri_text : ℕ → Bytes → Option Bytes → Option Bytes → Bytes
rsuri_text vers ns none id = rsuri_head vers ns ++ (b'/' ∷ text_of id)
rsuri_text vers ns (some name) none = rsuri_head vers ns ++ (b'/' ∷ name)
rsuri_text vers ns (some name) (some id) = rsuri_head vers ns ++ (b'/' ∷ (name ++ (b'/' ∷ id)))

-- The callers pass a `uint8_t` for `apiVers`. The three texts are C strings or NULL.
-- `needed` is an `int`: `snprintf` of a longer text gives -1, which as a `size_t` is more than `len`.
pub build_rsuri : ℕ → Option Bytes → Option Bytes → Option Bytes → M Bytes
unfolding rsuri_text
build_rsuri vers ns name id = do
  assert (ltb vers 1000)
  assert (is_some ns)
  assert (is_some name || is_some id)
  let len = rsuri_size (text_of ns) name id % size_mod
  allocate
  let (needed, path) = snprintf len (rsuri_text vers (text_of ns) name id)
  assert (ltb needed (2 ^ 31) && leb needed len)
  pure path
