-- ===== src/Ui/Saved.antt =====
-- The settings that the tray application saves, as the Engine takes them: appytizer-ui/main.cpp,
-- PipeClient::request of appytizer-ui/ipc/pipe_client.cpp, and the common IPC protocol.
use appytizer_app_server.Base.{◌≡◌, refl, true, [], ◌∷◌, some, Text, codes}
use appytizer_app_server.Common.Json.{JsonLib, IsLawful}
use appytizer_app_server.Common.Config.{AppConfig}
use appytizer_app_server.Common.Protocol.{parse_request}
use appytizer_app_server.Engine.Settings.{assign_all}
use appytizer_app_server.Engine.Settings.Converted.{with_settings, assign_all-four_settings}
use appytizer_app_server.Ipc.Request.{request_line}
use appytizer_app_server.Ipc.Request.Answered.{parse_request-request_line}
use appytizer_app_server.Ui.Actions.{request, after_save, UiConfig, ◌>>=◌, get, pure, modify, ask}
use appytizer_app_server.Ui.App.{App}
use appytizer_app_server.Ui.Views.{Narrow}
use appytizer_app_server.Ui.Settings.{settings_params, save_settings}

abbrev pub entered : Text → App → UiConfig
entered path a = record {
  root_folder = path;
  https_enabled = a.https;
  run_minimized = a.minimized;
  autostart = a.autostart;
}

module _ (J : JsonLib) (laws : IsLawful J) (N : Narrow) (what : Text) where
  -- A click on Save asks for config.set with parameters that all convert: from the line that is sent,
  -- the Engine reads a request whose assignments give its settings the folder that was typed in and
  -- the three switches, without an exception. The folder is one that the system's code page holds.
  pub save_settings-assign_all :
      (a : App) (path root id : Text) (c : AppConfig)
      → N.to_path a.root_input ≡ some path
      → N.from_path path ≡ some root
      → (params : J.Json) × ((save_settings J N what a).1
          ≡ request (codes "config.set") (J.dump params) (after_save (entered path a)) ∷ [])
        × (parse_request J (request_line J id (codes "config.set") (J.dump params))
            ≡ some (record { id = id; command = codes "config.set"; params = params }))
        × (assign_all J params c ≡ (with_settings root a.https a.minimized a.autostart c, true))
  unfolding save_settings ◌>>=◌ get pure modify ask
  save_settings-assign_all a path root id c to from =
      let params = settings_params J N what root (entered path a) in
      (
        params,
        rw (save_settings, to, from) refl,
        parse_request-request_line J laws id (codes "config.set") params,
        assign_all-four_settings J laws root a.https a.minimized a.autostart c,
      )
