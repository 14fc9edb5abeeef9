-- ===== src/Engine/Answers.antt =====
-- What the system answers to the calls that engine/engine.cpp makes of its members.
use appytizer_app_server.Base.{Bool, Option, Text}
use appytizer_app_server.Common.Config.{SaveFaults}
use appytizer_app_server.Dns.Server.{SocketAnswers}
use appytizer_app_server.Engine.Activation.{Faults}
use appytizer_app_server.Engine.Hosts.{HostsSystem}
use appytizer_app_server.Services.Provider.{Windows}
use appytizer_app_server.Services.Search.{Disk, Installed}
use appytizer_app_server.Sites.Nginx.{OutputFaults}
use appytizer_app_server.Sites.Scan.{Answer, Folder}
use appytizer_app_server.Tls.Disk.{System}

-- What the system answers during one call.
pub record Answers : Type 0 where
  pub folder : Text → Folder
  -- path::string() throws at a name of the folder that the system's code page does not have.
  pub names_throw : Bool
  pub output : OutputFaults
  pub windows : Windows
  pub windows_again : Windows
  pub disk : Disk
  pub installed : Installed
  pub system : System
  pub sites_folder : Answer
  pub removal_fails : Text → Bool
  -- What is left of the staged sites and of the staged root configuration where they are removed.
  pub sites_left : Option Text → Option Text
  pub root_left : Option Text → Option Text
  -- The exit code of `nginx -t` is 0.
  pub accepts : Text → Option Text → Option Text → Bool
  pub faults : Faults
  pub hosts_system : HostsSystem
  pub sockets : SocketAnswers
  pub wakes : Bool
  pub saving : SaveFaults

-- The paths of the installation.
pub record Paths : Type 0 where
  pub data_directory : Text
  pub certificates_directory : Text
