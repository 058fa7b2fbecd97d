-- ===== src/Lib.antt =====
-- A model of the web frontend of RDFM, the device fleet manager, and what is proved of it.
--
-- The frontend is a Vue application that shows the packages, groups and devices of a management
-- server. Its logic stands in a few modules of functions and in the script parts of its pages. All
-- paths below are in frontend/src.
--
-- - common/utils.ts: `Utils`. `Utils/Model` has the interfaces of the server's resources,
--   `Utils/Endpoints` the endpoints, `Utils/World` the state that all modules share (the refs at
--   the top of the modules, the local storage, the requests sent and the pages opened).
--   `Utils/Fetch` is `fetchWrapper`, `Utils/Resources` is `resourcesGetter` with `fetchResources`
--   (and with replies that overtake each other in `Utils/Resources/Race`), for one constructor of
--   `Getter` for each call at the top of a module; `Utils/Access` is `allowedTo` and what it uses,
--   `Utils/Permissions` is `updatePermissions`, and `Utils/Notifications` is the queue of toasts.
--   `Utils/Polling` has the timers with which the pages repeat `fetchResources`, from the hooks of
--   GroupsList.vue, PackagesList.vue, DevicesList.vue and Device.vue. `Utils/Command` and
--   `Utils/Submission` are specifications: what a request that changes something promises, and
--   what the submission of a form promises.
-- - components/devices: `Devices/Requests` is devices.ts, `Devices/Page`, `Devices/View` and
--   `Devices/Tagged` are DevicesList.vue, and `Devices/Route` and `Devices/Detail` are Device.vue.
-- - components/packages: `Packages/Requests` is packages.ts, `Packages/Page` and `Packages/View`
--   are PackagesList.vue.
-- - components/groups: `Groups/Requests` is groups.ts, `Groups/Page`, `Groups/View` and
--   `Groups/Configure` are GroupsList.vue, with the policies that it offers in `Groups/Policies`.
--   `Groups/Configure/Plan` is the specification of `configureGroup`, and `Groups/Configure/Steps`
--   runs it turn by turn, from one `await` to the next. `Groups/Configure/Server` says what the
--   server is documented to do with the requests, as hypotheses, `Groups/Configure/Chosen` what
--   the plan makes of the group, and `Groups/Configure/Reached` what `configureGroup` leaves there.
-- - components/*.vue: `Components`, with a module for each component that the pages share:
--   Dropdown.vue, SimpleDropdown.vue, DownloadButton.vue, TitleBar.vue (with Status.vue and
--   UpdateProgress.vue), RemovePopup.vue and Terminal.vue.
-- - router/index.ts, main.ts, views/LoginHandler.vue and views/LogoutHandler.vue: `Session`, with
--   the table of routes and the start of the application in `Session/Routes`; `Session/Expiry`
--   composes the handlers with `Utils/Resources` and `Home/Roles`.
-- - views/HomeView.vue: `Home/Events` has the listeners of the event stream, `Home/Colour` the
--   colours of roles, `Home/Roles` the user and the roles in the token, `Home/Tabs` the routes,
--   the navbar and the pages shown, and `Home/View` the template with the menu of the account.
-- - `Base` has what all of these use: tests, lists, texts, maps, and functions that change a
--   state. `Tests` runs the theorems at concrete inputs.
--
-- The pages call the request modules, those call `fetchWrapper` and refresh their getters, and the
-- results come back as values of `RequestOutput`, which the pages show as notifications. A module
-- called `View` is the template of a page as a function of its state: the values that it shows,
-- and each button under the test that it stands under, with what it gives to its handler.
--
-- What is no code of the repository is a field of the record `Browser`, an argument of every
-- definition: `fetch`, with its reply as a value (rejected, or a status and a body that may fail
-- to parse), the toast plugin, the decoding of a token, `localeCompare`, and the configuration.
-- The timers of the browser are the record `Timers`, and what is documented of them `IsReliable`.
-- What the web socket and hterm do, and the end of the reading of a blob, is an event of
-- `Components/Terminal`. `decodeURIComponent`, which may throw, and `Number` are parameters of
-- `Devices/Route`, and the answer of the router whether it knows a path
-- is one of `Session`. What is documented of the server's side of a configuration is `IsServer`,
-- of which `Tests/Server` has an instance; a group
-- with a negative priority is none of the model. That an unmounted component emits nothing (Vue) and
-- that RouterView keeps an instance for routes to the same component (vue-router) is built in. An asynchronous function is run to its end in one step,
-- its awaits included, except in `Devices/Detail/Actions`, `Devices/Detail/Groups`,
-- `Utils/Polling`, `Utils/Resources/Race`, `Components/Terminal`, `Utils/Notifications/Laws`,
-- `Groups/Configure/Steps` and `Packages/Page/Uploads`, where the steps of several calls are
-- interleaved. A rejected promise is `none`, or an outcome of its own. Numbers are natural
-- numbers, and identifiers are below 2^53, where the numbers of JavaScript are exact. The printing
-- of a number has the number itself as fuel, which is enough since each digit divides it; the
-- turns of `configureGroup` are driven with fuel four, one for each of its requests.
--
-- Not modelled: the styles of the pages and what is only markup in the templates, the height of a
-- dropdown's table, hterm itself, which is a copy of another project; the server, the clients on
-- the devices and the command-line tools, which are written in other languages.
pub mod Base
pub mod Utils
pub mod Components
pub mod Devices
pub mod Packages
pub mod Groups
pub mod Home
pub mod Session
pub mod Tests
