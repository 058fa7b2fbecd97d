-- ===== src/Utils/Model.antt =====
-- The resources of the server's API, as utils.ts and devices.ts declare them.
use rdfm.Base.{ℕ, ℤ, String, Bool, true, false, Option, none, some, List}

pub data Verb : Type 0 where
  read update delete shell : Verb

pub data Kind : Type 0 where
  pckg group device : Kind

pub record Permission : Type 0 where
  pub permission : Verb
  pub resource : Kind
  pub resource_id : ℕ
  pub user_id : String

pub record Package : Type 0 where
  pub id : ℕ
  pub created : String
  pub sha256 : String
  pub driver : String
  pub metadata : List (String × String)

-- A value of type `string | string[]`.
pub data MetaValue : Type 0 where
  text : String → MetaValue
  texts : List String → MetaValue

pub record PendingDevice : Type 0 where
  pub public_key : String
  pub mac_address : String
  pub last_appeared : String
  pub metadata : List (String × MetaValue)

pub record RegisteredDevice : Type 0 where
  pub id : ℕ
  pub last_access : String
  pub name : String
  pub mac_address : String
  pub groups : Option (List ℕ)
  pub metadata : List (String × MetaValue)
  pub capabilities : List (String × Bool)
  pub public_key : String
  pub connected : Bool
  pub progress : Option ℕ

pub record Group : Type 0 where
  pub id : ℕ
  pub created : String
  pub packages : List ℕ
  pub devices : List ℕ
  pub metadata : List (String × String)
  pub policy : String
  pub priority : ℕ

pub record Action : Type 0 where
  pub action_id : String
  pub action_name : String
  pub command : List String
  pub description : String

-- An entry of a device's action log. The program reads it untyped.
pub record Task : Type 0 where
  pub id : String
  pub action : String
  pub created : String
  pub status : String
  pub download_url : Option String

pub record RequestOutput : Type 0 where
  pub success : Bool
  pub message : Option String
  pub errors : Option (List (String × String))

abbrev pub succeeded : RequestOutput
succeeded = record { success = true; message = none; errors = none }

abbrev pub failed : String → RequestOutput
failed message = record { success = false; message = some message; errors = none }

-- The result of the requests that return data, their field `data`.
pub record DataOutput (A : Type 0) : Type 0 where
  pub success : Bool
  pub message : Option String
  pub result : Option A

abbrev pub data_failed : {A : Type 0} → String → DataOutput A
data_failed message = record { success = false; message = some message; result = none }

-- The fields of a decoded access token that the program reads.
pub record Claims : Type 0 where
  pub sub : String
  pub preferred_username : String
  pub roles : List String

-- What the JSON of a response is read as: the type that the caller casts it to.
pub data Shape : Type 0 where
  packages groups devices pending permissions actions tags tasks : Shape
  executed stored link ignored : Shape

abbrev pub Body : Shape → Type 0
Body Shape.packages = List Package
Body Shape.groups = List Group
Body Shape.devices = List RegisteredDevice
Body Shape.pending = List PendingDevice
Body Shape.permissions = List Permission
Body Shape.actions = List Action
Body Shape.tags = List String
Body Shape.tasks = List Task
Body Shape.executed = ℤ
Body Shape.stored = ℤ × String
Body Shape.link = String
Body Shape.ignored = Unit {0}
