-- ===== src/Glide/Symbols/Lower.antt =====
-- glide2x_impl.c, the first half of tblGlide2x: the decorated names of the Glide functions, in the
-- order of the numbers of g2xfuncs.h.
use qemu_win.Prelude.{List, [], ◌∷◌}
use Prim.Native.String.{String}

unfoldable pub syms_lower : List String
syms_lower =
    "_ConvertAndDownloadRle@64" ∷ "_grAADrawLine@8" ∷ "_grAADrawPoint@4" ∷ "_grAADrawPolygon@12"
    ∷ "_grAADrawPolygonVertexList@8" ∷ "_grAADrawTriangle@24" ∷ "_grAlphaBlendFunction@16"
    ∷ "_grAlphaCombine@20" ∷ "_grAlphaControlsITRGBLighting@4" ∷ "_grAlphaTestFunction@4"
    ∷ "_grAlphaTestReferenceValue@4" ∷ "_grBufferClear@12" ∷ "_grBufferNumPending@0"
    ∷ "_grBufferSwap@4" ∷ "_grCheckForRoom@4" ∷ "_grChromakeyMode@4" ∷ "_grChromakeyValue@4"
    ∷ "_grClipWindow@16" ∷ "_grColorCombine@20" ∷ "_grColorMask@8" ∷ "_grConstantColorValue4@16"
    ∷ "_grConstantColorValue@4" ∷ "_grCullMode@4" ∷ "_grDepthBiasLevel@4"
    ∷ "_grDepthBufferFunction@4" ∷ "_grDepthBufferMode@4" ∷ "_grDepthMask@4"
    ∷ "_grDisableAllEffects@0" ∷ "_grDitherMode@4" ∷ "_grDrawLine@8" ∷ "_grDrawPlanarPolygon@12"
    ∷ "_grDrawPlanarPolygonVertexList@8" ∷ "_grDrawPoint@4" ∷ "_grDrawPolygon@12"
    ∷ "_grDrawPolygonVertexList@8" ∷ "_grDrawTriangle@12" ∷ "_grErrorSetCallback@4"
    ∷ "_grFogColorValue@4" ∷ "_grFogMode@4" ∷ "_grFogTable@4" ∷ "_grGammaCorrectionValue@4"
    ∷ "_grGlideGetState@4" ∷ "_grGlideGetVersion@4" ∷ "_grGlideInit@0" ∷ "_grGlideSetState@4"
    ∷ "_grGlideShamelessPlug@4" ∷ "_grGlideShutdown@0" ∷ "_grHints@8" ∷ "_grLfbConstantAlpha@4"
    ∷ "_grLfbConstantDepth@4" ∷ "_grLfbLock@24" ∷ "_grLfbReadRegion@28" ∷ "_grLfbUnlock@8"
    ∷ "_grLfbWriteColorFormat@4" ∷ "_grLfbWriteColorSwizzle@8" ∷ "_grLfbWriteRegion@32"
    ∷ "_grRenderBuffer@4" ∷ "_grResetTriStats@0" ∷ "_grSplash@20" ∷ "_grSstConfigPipeline@12"
    ∷ "_grSstControl@4" ∷ "_grSstIdle@0" ∷ "_grSstIsBusy@0" ∷ "_grSstOrigin@4" ∷ "_grSstPerfStats@4"
    ∷ "_grSstQueryBoards@4" ∷ "_grSstQueryHardware@4" ∷ "_grSstResetPerfStats@0"
    ∷ "_grSstScreenHeight@0" ∷ "_grSstScreenWidth@0" ∷ "_grSstSelect@4" ∷ "_grSstStatus@0"
    ∷ "_grSstVRetraceOn@0" ∷ "_grSstVidMode@8" ∷ "_grSstVideoLine@0" ∷ "_grSstWinClose@0"
    ∷ "_grSstWinOpen@28" ∷ "_grTexCalcMemRequired@16" ∷ "_grTexClampMode@12" ∷ "_grTexCombine@28"
    ∷ "_grTexCombineFunction@8" ∷ "_grTexDetailControl@16" ∷ "_grTexDownloadMipMap@16"
    ∷ "_grTexDownloadMipMapLevel@32" ∷ "_grTexDownloadMipMapLevelPartial@40"
    ∷ "_grTexDownloadTable@12" ∷ "_grTexDownloadTablePartial@20" ∷ "_grTexFilterMode@12"
    ∷ "_grTexLodBiasValue@8" ∷ "_grTexMaxAddress@4" ∷ "_grTexMinAddress@4" ∷ "_grTexMipMapMode@12"
    ∷ "_grTexMultibase@8" ∷ "_grTexMultibaseAddress@20" ∷ []
