-- ===== src/Config.antt =====
-- RpcFramework/rocket/common/config.h and config.cpp: what the library is told at its start. The document is
-- tinyxml's, and an argument, as is `atoi`; none is `exit(0)`.
use rpc_framework.Base.{ℕ, List, [], Option, none, some, ◌>>=◌, codes}
use rpc_framework.Base.Int.{ℤ, pos}

pub record Config : Type 0 where
  pub m_log_level : List ℕ
  pub m_log_file_name : List ℕ
  pub m_log_file_path : List ℕ
  pub m_log_max_file_size : ℤ
  pub m_log_sync_inteval : ℤ
  pub m_port : ℤ
  pub m_io_threads : ℤ

-- `Config::Config()`
unfoldable pub default_config : Config
default_config = record {
  m_log_level = codes "DEBUG";
  m_log_file_name = [];
  m_log_file_path = [];
  m_log_max_file_size = pos 0;
  m_log_sync_inteval = pos 0;
  m_port = pos 0;
  m_io_threads = pos 0;
}

-- The nodes of a document: `LoadFile`, `FirstChildElement` by name, and `GetText`.
pub record Xml (N : Type 0) : Type 0 where
  pub load_file : List ℕ → Option N
  pub first_child_element : N → List ℕ → Option N
  pub get_text : N → Option (List ℕ)

module _ {N : Type 0} (xml : Xml N) (atoi : List ℕ → ℤ) where
  -- `READ_XML_NODE`
  unfoldable pub read_xml_node : List ℕ → N → Option N
  read_xml_node name parent = xml.first_child_element parent name

  -- `READ_STR_FROM_XML_NODE`
  unfoldable pub read_str_from_xml_node : List ℕ → N → Option (List ℕ)
  read_str_from_xml_node name parent = do
    node ← xml.first_child_element parent name
    xml.get_text node

  -- `Config::Config(xmlfile)`
  unfoldable pub read_config : List ℕ → Option Config
  unfolding read_xml_node read_str_from_xml_node
  read_config xmlfile = do
    xml_document ← xml.load_file xmlfile
    root_node ← read_xml_node (codes "root") xml_document
    log_node ← read_xml_node (codes "log") root_node
    server_node ← read_xml_node (codes "server") root_node
    log_level ← read_str_from_xml_node (codes "log_level") log_node
    log_file_name ← read_str_from_xml_node (codes "log_file_name") log_node
    log_file_path ← read_str_from_xml_node (codes "log_file_path") log_node
    log_max_file_size ← read_str_from_xml_node (codes "log_max_file_size") log_node
    log_sync_inteval ← read_str_from_xml_node (codes "log_sync_inteval") log_node
    port ← read_str_from_xml_node (codes "port") server_node
    io_threads ← read_str_from_xml_node (codes "io_threads") server_node
    some (record {
      m_log_level = log_level;
      m_log_file_name = log_file_name;
      m_log_file_path = log_file_path;
      m_log_max_file_size = atoi log_max_file_size;
      m_log_sync_inteval = atoi log_sync_inteval;
      m_port = atoi port;
      m_io_threads = atoi io_threads;
    })

  -- `SetGlobalConfig`: the first call decides; none for the file is `nullptr`.
  unfoldable pub set_global_config : Option (List ℕ) → Option Config → Option (Option Config)
  unfolding read_config
  set_global_config xmlfile (some config) = some (some config)
  set_global_config none none = some (some default_config)
  set_global_config (some file) none = do config ← read_config file; some (some config)
