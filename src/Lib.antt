-- ===== src/Lib.antt =====
-- Certadillo's programs in the browser.
--
-- Certadillo is a certificate lifecycle service written in Python. Three programs of it run in the
-- browser, and this library is about those.
--
-- The walkthroughs, kb-src/scenes-engine.js and kb-src/scenes-data.js: a scene is a list of steps,
-- a step a list of moves between actors, which fly as envelopes or act where they are; frames and
-- the user's events drive them. `CertadilloScenes.register` files the scenes and `mount` starts
-- one.
--
-- The shell of the knowledge base, kb-src/kb-app.js: navigation, routing by the hash of the
-- address, the pager and the search. It mounts a walkthrough where a page has one.
--
-- The web console, src/certadillo/web/static/console.js: forms and tables over the HTTP API.
--
-- The build copies the files of kb-src to src/certadillo/web/static/kb.
--
-- Which file is about which part:
--
-- Prelude: shared names, Boolean tests, lists and integers, and the names that every JavaScript
-- object inherits. Words: `trim`, `split`, `includes` and `join` on texts; Words/Within is
-- what `includes` finds.
-- Scene/Def: the object literals of a scene. Scene/Data and the files below it: the fifteen scenes
-- of scenes-data.js, one file each, with all their texts.
-- Scene/View: the fields of a SceneView, `pulse`, `addBlock`, `setChain`, `clearPackets`.
-- Scene/Settle: `settle`, `readingTime`, and the panel that `goTo` writes. Scene/Moves:
-- `startNextMove`, `spawnPacket`, `applyEffect`, `burst`, `goTo`. Scene/Frame: `loop` and `pause`.
-- Scene/Input: the constructor, `play`, `togglePlay`, `resize` and the handlers of `bindEvents`.
-- Scene/Mount: `register` and `mount`. Scene/Dom: `buildDom`. Scene/Laws and below: what holds of
-- them; Scene/Laws/Slides is the slide show that a walkthrough is compared with.
-- Kb/Page, Kb/Nav, Kb/Pager, Kb/Route, Kb/Search, Kb/Box, Kb/Markup: the parts of kb-app.js, the last
-- one the markup that it writes, and Box the handlers of the search box. Kb/Laws and below: what holds of them.
-- Markup: `escText`, `part`, `html` and `render` of console.js. Markup/Lexer, Markup/Tags and
-- Markup/Decode: how a browser reads markup, its tags and character references, written without
-- regard to the escaping. Markup/Allowed: lists of tags that are allowed.
-- Console/Rules: the editor of a policy folder's rules. Console/Folders: the policy tree, and below
-- it the effective policy. Console/Onboard: the onboarding wizard. Console/Inventory: the inventory
-- and the approvals. Console/Session: the key, the role and the tabs.
-- Console/Cells: `pill`, `options` and the other templates that views share. Console/Overview,
-- Console/Discovery, Console/Provisioning, Console/Signing, Console/Issuers, Console/SshKeys,
-- Console/Audit, Console/Reports: the views that the loaders fill, each a function from what the API
-- sends to what `render` gets, and below Inventory, Onboard, Rules and Folders the views of those.
-- Console/Drawn gathers them. A file Safety below a view is about its tags.
-- Console/Encode: `encodeURIComponent`, a function of the language. Console/Requests and Console/Calls: the calls of `api` that
-- change something or name something in their path, with their bodies, and below Calls their
-- endpoints and the saving of a folder's rules. Console/Replies: the error of `api`, `outcome`, `say`
-- and `toast`. Console/Editor: the form that edits a folder, over time, and below it the
-- folders that were loaded.
--
-- Scene/Tests, Markup/Tests, Kb/Tests, Console/Tests and the files Tests below Console run small
-- inputs, and apply the theorems to them.
--
-- State and errors. A SceneView, the wizard and the shell of the knowledge base are records that
-- the operations take and return; a run is a list of events, in any order. In the wizard and in the
-- form of a folder a click and the reply to its call are events of their own, so that replies may
-- overtake clicks and each other. An uncaught TypeError of
-- the source is `none`; the errors of `readRules` are a result type of their own, and so are those of
-- preparing a call.
--
-- Texts. A text is the list of its UTF-16 units. A field of the API that is only shown, also a number,
-- is the text that `String` makes of it, and one that may be missing is the empty text, as both show
-- nothing and are false in a test; a field that is counted or compared is a number. Fields that the
-- API always sends are there. A chain of + over strings and `esc` in kb-src is written as a template.
--
-- Numbers. All are natural numbers or integers: the decimals of the engine are counted in units in
-- which every literal of the source is whole (a tenth of a millisecond, a thousandth of a height, a
-- hundred-thousandth of an angle or a distance). Time runs in whole milliseconds and the stage is
-- whole pixels wide. The rounding of floating point is not modelled; the radius after zooming is
-- rounded down to its unit.
--
-- Fuel. `node` of the policy tree recurses over data of the server that may hold a cycle, and has
-- fuel: one call more than the greatest depth is enough. The loops of `setChain` and of the pager
-- have as many rounds as they add blocks or as there are pages, which is enough too. All else is
-- structural.
--
-- Taken as arguments: `toLowerCase`, `Number` on texts and `String` on numbers, whether the page has
-- an element of an id, the replies of the API, the pages that the build writes, and whether reduced
-- motion is asked for.
--
-- Not modelled: what three.js draws, the vendored copy of it, the fixed addresses from which loaders
-- read, which buttons are hooked to which handler, the generated text of the knowledge base, and the
-- server. Names that objects inherit are modelled where a name comes from outside: in the address of
-- a page and the id of a scene.
pub mod Prelude
pub mod Words
pub mod Markup
pub mod Scene
pub mod Kb
pub mod Console
