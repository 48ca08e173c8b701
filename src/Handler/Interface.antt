-- ===== src/Handler/Interface.antt =====
-- src/ha_serverless.h and src/ha_serverless.cc: what the handler tells the server about itself and
-- its tables, and the declaration of the plugin. The numbers of the server's headers are parameters.
use Prim.Native.Nat.{bit_or}
use mariadb_serverless_engin.Base.{ℕ, Bool, true, List, [], ◌∷◌}
use mariadb_serverless_engin.Text.{codes}
use mariadb_serverless_engin.Engine.{Handler, HaResult, ok}

-- The flags and limits that `ha_serverless.h` takes from the server's headers.
pub record ServerHeaders : Type 0 where
  pub ha_rec_not_in_seq : ℕ
  pub ha_can_geometry : ℕ
  pub ha_fast_key_read : ℕ
  pub ha_null_in_key : ℕ
  pub ha_can_index_blobs : ℕ
  pub ha_auto_part_key : ℕ
  pub ha_file_based : ℕ
  pub ha_can_insert_delayed : ℕ
  pub ha_read_next : ℕ
  pub ha_read_prev : ℕ
  pub ha_read_order : ℕ
  pub ha_read_range : ℕ
  pub ha_keyread_only : ℕ
  pub ha_do_index_cond_pushdown : ℕ
  pub ha_max_rec_length : ℕ
  pub hton_can_recreate : ℕ
  pub db_type_autoassign : ℕ
  pub mysql_handlerton_interface_version : ℕ
  pub mysql_storage_engine_plugin : ℕ
  pub plugin_license_gpl : ℕ
  pub mariadb_plugin_maturity_experimental : ℕ

unfoldable pub table_type : List ℕ
table_type = codes "SERVERLESS"

unfoldable pub index_type : ℕ → List ℕ
index_type index_number = codes "NONE"

-- The terminating null pointer is left out.
unfoldable pub bas_ext : List (List ℕ)
bas_ext = codes ".srv" ∷ []

unfoldable pub table_flags : ServerHeaders → ℕ
table_flags s =
    bit_or
      (bit_or
        (bit_or
          (bit_or
            (bit_or (bit_or (bit_or s.ha_rec_not_in_seq s.ha_can_geometry) s.ha_fast_key_read)
              s.ha_null_in_key)
            s.ha_can_index_blobs)
          s.ha_auto_part_key)
        s.ha_file_based)
      s.ha_can_insert_delayed

-- The same for every index and part.
unfoldable pub index_flags : ServerHeaders → ℕ
index_flags s =
    bit_or
      (bit_or
        (bit_or (bit_or (bit_or s.ha_read_next s.ha_read_prev) s.ha_read_order) s.ha_read_range)
        s.ha_keyread_only)
      s.ha_do_index_cond_pushdown

-- `max_supported_record_length` and the three limits on keys.
pub record SupportedLimits : Type 0 where
  pub record_length : ℕ
  pub keys : ℕ
  pub key_parts : ℕ
  pub key_length : ℕ

unfoldable pub supported_limits : ServerHeaders → SupportedLimits
supported_limits s = record {
  record_length = s.ha_max_rec_length;
  keys = 64;
  key_parts = 16;
  key_length = 3072;
}

-- The fields of the server's statistics that `info` sets.
pub record Statistics : Type 0 where
  pub records : ℕ
  pub deleted : ℕ
  pub data_file_length : ℕ
  pub index_file_length : ℕ
  pub mean_rec_length : ℕ

unfoldable pub info : ℕ → Statistics → HaResult × Statistics
info reclength stats = (
  ok,
  record {
    records = 0;
    deleted = 0;
    data_file_length = 0;
    index_file_length = 0;
    mean_rec_length = reclength;
  },
)

unfoldable pub records_in_range : ℕ
records_in_range = 10

unfoldable pub external_lock : HaResult
external_lock = ok

-- The pointer that it was given.
unfoldable pub store_lock {ℓ} : {A : Type ℓ} → A → A
store_lock to = to

-- It leaves the handler as it was.
unfoldable pub position : Handler → Handler
position h = h

unfoldable pub index_end : HaResult
index_end = ok

-- What the plugin's loading writes into the server's handlerton; `creates_handlers` says that its
-- `create` is `serverless_create_handler`.
pub record Handlerton : Type 0 where
  pub creates_handlers : Bool
  pub flags : ℕ
  pub db_type : ℕ

unfoldable pub init_handlerton : ServerHeaders → Handlerton → Handlerton
init_handlerton s hton = record {
  creates_handlers = true;
  flags = s.hton_can_recreate;
  db_type = s.db_type_autoassign;
}

-- The entry of the plugin; the two functions are those of `Plugin`, and there are no variables.
pub record PluginDeclaration : Type 0 where
  pub plugin_type : ℕ
  pub interface_version : ℕ
  pub name : List ℕ
  pub author : List ℕ
  pub description : List ℕ
  pub license : ℕ
  pub version : ℕ
  pub string_version : List ℕ
  pub maturity : ℕ

unfoldable pub serverless : ServerHeaders → PluginDeclaration
serverless s = record {
  plugin_type = s.mysql_storage_engine_plugin;
  interface_version = s.mysql_handlerton_interface_version;
  name = codes "SERVERLESS";
  author = codes "Serverless MariaDB Project";
  description = codes "Neon-inspired serverless storage engine with compute/storage separation";
  license = s.plugin_license_gpl;
  version = 0x0100;
  string_version = codes "1.0";
  maturity = s.mariadb_plugin_maturity_experimental;
}
